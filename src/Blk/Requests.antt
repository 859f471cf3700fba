-- ===== src/Blk/Requests.antt =====
-- virtio/blk.h: what a whole request does.
use kthxvm.Base.{ℕ, ◌+◌, ◌*◌, ◌%◌, ◌^◌, ◌<◌, ◌≡◌, ap, List, u32, u64, length, arith}
use kthxvm.Memory.{Memory, load, store_byte}
use kthxvm.Queue.{Queue, descriptor, desc_at}
use kthxvm.Queue.Table.{next_bound}
use kthxvm.Blk.{Request, reads, writes, finish, handle}
use kthxvm.Blk.File.{Stream, seek, stream_write}
use kthxvm.Blk.Transfer.{Chain, Clear, gather, total, scatter, segments_in_lem, segments_out_lem}

-- The position in the file that the header at `p` asks for.
abbrev pub position : Memory → ℕ → ℕ
position m p = u64 (load 8 m ((descriptor m p).addr + 8) * 512)

one_more : (n : ℕ) → u32 ((0 + n) % 2 ^ 32 + 1) ≡ (n + 1) % 2 ^ 32
one_more n = omega arith

module _ (decode : ℕ → Request) (status_ok : ℕ) where
  -- A write request whose chain of descriptors has an end is one write of the bytes of its buffers,
  -- in order, to the stream after `seekp`, and the end of the round with the number of the bytes
  -- and one more.
  pub handle-writes :
      (segments : List (ℕ × ℕ)) (n : ℕ) (q : Queue) (m : Memory) (f : Stream) (p start last : ℕ)
      → decode (load 4 m (descriptor m p).addr) ≡ writes
      → Chain m q (desc_at q (descriptor m p).next) segments last
      → length segments < n
      → handle decode status_ok n q m f p start
        ≡ finish q
            (store_byte m (descriptor m last).addr status_ok)
            (stream_write (seek f (position m p)) (gather m segments))
            start
            ((total segments + 1) % 2 ^ 32)
  unfolding handle
  handle-writes segments n q m f p start last kind c fuel =
      let p1 = desc_at q (descriptor m p).next in
      let walk =
        segments_out_lem segments n q m (seek f (position m p)) p1 last 0 c fuel (omega arith) in
      rw (kind, walk, handle) (ap (finish q _ _ start) (one_more (total segments)))

  -- A read request whose chain has an end, and whose buffers lie outside of the table of
  -- descriptors, is a read of the stream after `seekg` into each buffer, in order, and the end of
  -- the round with the number of the bytes and one more.
  pub handle-reads :
      (segments : List (ℕ × ℕ)) (n : ℕ) (q : Queue) (m : Memory) (f : Stream) (p start last : ℕ)
      → decode (load 4 m (descriptor m p).addr) ≡ reads
      → Chain m q (desc_at q (descriptor m p).next) segments last
      → Clear q segments
      → length segments < n
      → let (m', f') = scatter m (seek f (position m p)) segments in
        handle decode status_ok n q m f p start
        ≡ finish q
            (store_byte m' (descriptor m' last).addr status_ok)
            f'
            start
            ((total segments + 1) % 2 ^ 32)
  unfolding handle
  handle-reads segments n q m f p start last kind c clear fuel =
      let walk =
        segments_in_lem segments n q m (seek f (position m p)) (descriptor m p).next last 0 c clear
          (next_bound m p) fuel (omega arith) in
      rw (kind, walk, handle) (ap (finish q _ _ start) (one_more (total segments)))
