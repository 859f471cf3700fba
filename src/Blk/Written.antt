-- ===== src/Blk/Written.antt =====
-- virtio/blk.h: a whole write request, from its descriptors to the file and the used ring.
use kthxvm.Base.{ℕ, ◌+◌, ◌%◌, ◌^◌, ◌<◌, ◌≡◌, ◌≢◌, ◌∙◌, false, some, List, [], length, ok}
use kthxvm.Memory.{Memory, load}
use kthxvm.Queue.{Queue, descriptor, desc_at}
use kthxvm.Blk.{Blk, Request, writes, handle}
use kthxvm.Blk.File.{Stream, seek, stream_write, Stored, stream_write-Stored}
use kthxvm.Blk.Transfer.{Chain, gather, total}
use kthxvm.Blk.Requests.{position, handle-writes}
use kthxvm.Blk.Finished.{OutsideRing, Finished, finish-Finished, Finished-narrow}
use kthxvm.Blk.Scatter.{u8-gather}

module _ (decode : ℕ → Request) (status_ok : ℕ) where
  -- A write request at a sector below byte 2^63, on a file that has not failed and a queue with a
  -- size, whose chain of descriptors ends within the fuel, with a status byte outside of the used
  -- ring: afterwards the file has the bytes of the buffers, in order, from the sector's first byte
  -- on, and is otherwise as before, or longer if it ended before them; the slot at the old used
  -- index has the request's number and the number of the bytes and one more, the index is one
  -- further, the status is success, the interrupt line is driven when the old index is the one at
  -- which the driver wants an event and is not 65535, and in the memory nothing but the status byte,
  -- the used index and the used ring is changed.
  pub handle-writes-Finished :
      (segments : List (ℕ × ℕ)) (n : ℕ) (q : Queue) (m : Memory) (f : Stream) (p start last : ℕ)
      → q.size ≢ 0
      → f.failed ≡ false
      → position m p < 2 ^ 63
      → decode (load 4 m (descriptor m p).addr) ≡ writes
      → Chain m q (desc_at q (descriptor m p).next) segments last
      → length segments < n
      → OutsideRing q (descriptor m last).addr
      → (b : Blk) × (handle decode status_ok n q m f p start ≡ ok (some b))
        × Stored f (position m p) (gather m segments) b.file
        × Finished q m [] (descriptor m last).addr status_ok start (total segments + 1) b
  handle-writes-Finished segments n q m f p start last sized good small kind c fuel out =
      let f' = stream_write (seek f (position m p)) (gather m segments) in
      let (b, ends, file, done) =
        finish-Finished q m f' (descriptor m last).addr status_ok start
          ((total segments + 1) % 2 ^ 32) sized out in
      (
        b,
        handle-writes decode status_ok segments n q m f p start last kind c fuel ∙ ends,
        rw file (
            stream_write-Stored f (position m p) (gather m segments) good small
              (u8-gather m segments)),
        Finished-narrow done,
      )
