-- ===== src/Blk/Filled.antt =====
-- virtio/blk.h: a whole read request, from the file to its buffers and the used ring.
use kthxvm.Base.{
  ℕ, ◌+◌, ◌*◌, ◌%◌, ◌^◌, ◌≤◌, ◌<◌, ◌≡◌, ◌≢◌, ◌∙◌, false, some, List, length, arith, ok,
}
use kthxvm.Memory.{Memory, load, read_bytes}
use kthxvm.Queue.{Queue, descriptor, desc_at}
use kthxvm.Queue.Table.{next_bound}
use kthxvm.Blk.{Blk, Request, reads, handle}
use kthxvm.Blk.File.{Stream, seek_inside}
use kthxvm.Blk.Transfer.{Chain, Clear, gather, total, scatter}
use kthxvm.Blk.Requests.{position, handle-reads}
use kthxvm.Blk.Finished.{
  AllApart, OutsideRing, Finished, finish-Finished, Finished-narrow, Finished-buffers,
}
use kthxvm.Blk.Scatter.{
  Disjoint, gather-cong, scatter-OutsideAll, scatter_lem, Chain-last, descriptor-scatter,
}

-- The buffers have no byte in common with each other, with the table of descriptors, with the used
-- ring and with the status byte at `s`, which is outside of the used ring.
pub record Separate (q : Queue) (segments : List (ℕ × ℕ)) (s : ℕ) : Type 0 where
  pub buffers : Disjoint segments
  pub table : Clear q segments
  pub ring : AllApart (q.used_addr + 2) (2 + 8 * q.size) segments
  pub status : AllApart s 1 segments
  pub status_ring : OutsideRing q s

module _ (decode : ℕ → Request) (status_ok : ℕ) where
  -- A read request of bytes inside of a file that has not failed, at a sector below byte 2^63, on a
  -- queue with a size, whose chain of descriptors ends within the fuel, whose buffers are apart from
  -- each other, from the table of descriptors, the used ring and the status byte, which is outside
  -- of the used ring: in the memory that is returned the buffers have, in order, the file's bytes
  -- from the sector's first byte on; the slot at the old used index has the request's number and the
  -- number of the bytes and one more, the index is one further, the status is success, the interrupt
  -- line is driven when the old index is the one at which the driver wants an event and is not
  -- 65535; and nothing else is changed, in the memory but for the rest of the used ring, and in the
  -- file but for its position, which is behind the last byte.
  pub handle-reads-Finished :
      (segments : List (ℕ × ℕ)) (n : ℕ) (q : Queue) (m : Memory) (f : Stream) (p start last : ℕ)
      → q.size ≢ 0
      → f.failed ≡ false
      → position m p < 2 ^ 63
      → position m p + total segments ≤ f.size
      → decode (load 4 m (descriptor m p).addr) ≡ reads
      → Chain m q (desc_at q (descriptor m p).next) segments last
      → length segments < n
      → Separate q segments (descriptor m last).addr
      → (b : Blk) × (handle decode status_ok n q m f p start ≡ ok (some b))
        × (gather b.memory segments ≡ read_bytes f.content (position m p) (total segments))
        × (b.file ≡ record f { pos = position m p + total segments })
        × Finished q m segments (descriptor m last).addr status_ok start (total segments + 1) b
  handle-reads-Finished segments n q m f p start last sized good small inside kind c fuel apart =
      let g : Stream = record f { pos = position m p } in
      let s = (descriptor m last).addr in
      let m1 = (scatter m g segments).0 in
      let f1 = (scatter m g segments).1 in
      let at = seek_inside f (position m p) good small in
      let (j, low, place) = Chain-last segments m q (descriptor m p).next last (next_bound m p) c in
      let status_at : descriptor m1 last ≡ descriptor m last =
        rw place (descriptor-scatter segments q m g j apart.table low) in
      let (filled, behind) = scatter_lem segments m g good inside apart.buffers in
      let (b, ends, file, done) =
        finish-Finished q m1 f1 s status_ok start ((total segments + 1) % 2 ^ 32) sized
          apart.status_ring in
      let whole =
        Finished-buffers q m m1 segments s status_ok start (total segments + 1) b
          (scatter-OutsideAll segments m g) apart.ring (Finished-narrow done) in
      (
        b,
        handle-reads decode status_ok segments n q m f p start last kind c apart.table fuel
            ∙ rw (at, status_at) ends,
        gather-cong segments m1 b.memory s 1 (q.used_addr + 2) (2 + 8 * q.size)
              (λ x o r. done.kept x (omega arith) r tt) apart.status apart.ring
            ∙ filled,
        file ∙ behind,
        whole,
      )
