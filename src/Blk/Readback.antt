-- ===== src/Blk/Readback.antt =====
-- virtio/blk.h: a request that reads what an earlier one wrote.
use kthxvm.Base.{ℕ, ◌+◌, ◌^◌, ◌≤◌, ◌<◌, ◌≡◌, ◌≢◌, sym, ◌∙◌, false, some, List, length, arith, ok}
use kthxvm.Memory.{Memory, load}
use kthxvm.Queue.{Queue, descriptor, desc_at}
use kthxvm.Blk.{Blk, Request, reads, writes, handle}
use kthxvm.Blk.File.{Stream, Stored}
use kthxvm.Blk.Transfer.{Chain, gather, total}
use kthxvm.Blk.Requests.{position}
use kthxvm.Blk.Finished.{OutsideRing}
use kthxvm.Blk.Scatter.{length-gather}
use kthxvm.Blk.Written.{handle-writes-Finished}
use kthxvm.Blk.Filled.{Separate, handle-reads-Finished}

-- What was stored is inside of the file.
Stored-inside :
    (f f' : Stream) (pos : ℕ) (m : Memory) (segments : List (ℕ × ℕ))
    → Stored f pos (gather m segments) f'
    → 0 < total segments
    → pos + total segments ≤ f'.size
Stored-inside f f' pos m segments stored some_bytes =
    let size = length-gather m segments in let grown = stored.grown in ground (arith, size, grown)

module _ (decode : ℕ → Request) (status_ok : ℕ) where
  -- On queues with a size and a file that has not failed: a write request of at least one byte at a
  -- sector below byte 2^63, whose chain of descriptors ends within the fuel, with a status byte
  -- outside of the used ring; and then, on the file that it leaves, a read request of the same
  -- sector, on any memory and queue, whose chain ends within the fuel and has as many bytes, and
  -- whose buffers are apart from each other, from the table of descriptors, the used ring and the
  -- status byte, which is outside of the used ring. Both succeed, and in the memory that the second
  -- returns its buffers have the bytes that the buffers of the first had, in order.
  pub handle-writes-reads :
      (ws rs : List (ℕ × ℕ)) (n n' : ℕ) (q q' : Queue) (m m' : Memory) (f : Stream)
      (p p' start start' last last' : ℕ)
      → q.size ≢ 0
      → q'.size ≢ 0
      → f.failed ≡ false
      → position m p < 2 ^ 63
      → position m' p' ≡ position m p
      → 0 < total ws
      → total rs ≡ total ws
      → decode (load 4 m (descriptor m p).addr) ≡ writes
      → decode (load 4 m' (descriptor m' p').addr) ≡ reads
      → Chain m q (desc_at q (descriptor m p).next) ws last
      → Chain m' q' (desc_at q' (descriptor m' p').next) rs last'
      → length ws < n
      → length rs < n'
      → OutsideRing q (descriptor m last).addr
      → Separate q' rs (descriptor m' last').addr
      → (b b' : Blk) × (handle decode status_ok n q m f p start ≡ ok (some b))
        × (handle decode status_ok n' q' m' b.file p' start' ≡ ok (some b'))
        × (gather b'.memory rs ≡ gather m ws)
  handle-writes-reads ws rs n n' q q' m m' f p p' start start' last last' sized sized' good small
        same some_bytes as_many w r cw cr fuel fuel' out apart =
      let (b, first, stored, done) =
        handle-writes-Finished decode status_ok ws n q m f p start last sized good small w cw fuel
          out in
      let inside : position m p + total ws ≤ b.file.size =
        Stored-inside f b.file (position m p) m ws stored some_bytes in
      let (b', second, filled, file, done') =
        handle-reads-Finished decode status_ok rs n' q' m' b.file p' start' last' sized' stored.good
          (rw same small) (rw (same, as_many) inside) r cr fuel' apart in
      let enough : total rs ≡ length (gather m ws) = as_many ∙ sym (length-gather m ws) in
      (b, b', first, second, filled ∙ rw (same, enough) stored.has)
