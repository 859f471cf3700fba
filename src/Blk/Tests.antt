-- ===== src/Blk/Tests.antt =====
-- virtio/blk.h on a request of four bytes: the header, the buffer and the status are at descriptors
-- 0, 1 and 2.
use kthxvm.Base.{
  ℕ, Bool, ◌≡◌, ◌==◌, refl, false, true, [], ◌∷◌, if◌then◌else◌, inl, inr, arith, ok, some,
}
use kthxvm.Blk.Finished.{Finished}
use kthxvm.Blk.Written.{handle-writes-Finished}
use kthxvm.Blk.Filled.{Separate, handle-reads-Finished}
use kthxvm.Blk.Readback.{handle-writes-reads}
use kthxvm.Memory.{read_bytes, Memory, load}
use kthxvm.Queue.{Queue, descriptor, desc_at}
use kthxvm.Blk.{Blk, Request, reads, writes, unhandled, handle}
use kthxvm.Blk.File.{Stream, Stored}
use kthxvm.Blk.Transfer.{Chain, gather}

abbrev queue : Queue
queue = record {
  size = 4;
  desc_addr = 0x1000;
  avail_addr = 0x2000;
  used_addr = 0x3000;
  notify = 0;
  last_avail = 1;
  ready = true;
}

-- Type `kind`, sector 0.
abbrev memory : ℕ → Memory
memory kind a =
    if a == 0x1001
    then 0x40
    else if a == 0x100c
    then 1
    else if a == 0x100e
    then 1
    else if a == 0x1012
    then 0x50
    else if a == 0x1018
    then 4
    else if a == 0x101c
    then 1
    else if a == 0x101e
    then 2
    else if a == 0x1021
    then 0x60
    else if a == 0x1028
    then 1
    else if a == 0x102c
    then 2
    else if a == 0x4000
    then kind
    else 0

abbrev decode : ℕ → Request
decode t = if t == 0 then reads else if t == 1 then writes else unhandled

abbrev disk : Bool → Stream
disk failed = record { content = λ a. 7; size = 1024; pos = 12; failed = failed }

chain :
    (kind : ℕ)
    → Chain
        (memory kind)
        queue
        (desc_at queue (descriptor (memory kind) 0x1000).next)
        ((0x500000, 4) ∷ [])
        0x1020
unfolding load descriptor
chain kind = (refl, refl, refl, (refl, refl))

handle-writes-Finished_example :
    (b : Blk) × (handle decode 0 2 queue (memory 1) (disk false) 0x1000 0 ≡ ok (some b))
    × Stored (disk false) 0 (gather (memory 1) ((0x500000, 4) ∷ [])) b.file
    × Finished queue (memory 1) [] 0x6000 0 0 5 b
unfolding load descriptor
handle-writes-Finished_example =
    handle-writes-Finished decode 0 ((0x500000, 4) ∷ []) 2 queue (memory 1) (disk false) 0x1000 0
      0x1020 (omega arith) refl (omega arith) refl (chain 1) (omega arith) (inr (omega arith))

separate : Separate queue ((0x500000, 4) ∷ []) 0x6000
separate = record {
  buffers = (tt, tt);
  table = (inl (omega arith), tt);
  ring = (inr (omega arith), tt);
  status = (inr (omega arith), tt);
  status_ring = inr (omega arith);
}

handle-reads-Finished_example :
    (b : Blk) × (handle decode 0 2 queue (memory 0) (disk false) 0x1000 0 ≡ ok (some b))
    × (gather b.memory ((0x500000, 4) ∷ []) ≡ 7 ∷ 7 ∷ 7 ∷ 7 ∷ [])
    × (b.file ≡ record { content = λ a. 7; size = 1024; pos = 4; failed = false })
    × Finished queue (memory 0) ((0x500000, 4) ∷ []) 0x6000 0 0 5 b
unfolding load descriptor read_bytes
handle-reads-Finished_example =
    handle-reads-Finished decode 0 ((0x500000, 4) ∷ []) 2 queue (memory 0) (disk false) 0x1000 0
      0x1020 (omega arith) refl (omega arith) (omega arith) refl (chain 0) (omega arith) separate

-- The sector that was written is read into a buffer of another memory.
handle-writes-reads_example :
    (b b' : Blk) × (handle decode 0 2 queue (memory 1) (disk false) 0x1000 0 ≡ ok (some b))
    × (handle decode 0 2 queue (memory 0) b.file 0x1000 1 ≡ ok (some b'))
    × (gather b'.memory ((0x500000, 4) ∷ []) ≡ gather (memory 1) ((0x500000, 4) ∷ []))
unfolding load descriptor
handle-writes-reads_example =
    handle-writes-reads decode 0 ((0x500000, 4) ∷ []) ((0x500000, 4) ∷ []) 2 2 queue queue
      (memory 1) (memory 0) (disk false) 0x1000 0x1000 0 1 0x1020 0x1020 (omega arith) (omega arith)
      refl (omega arith) refl (omega arith) refl refl refl (chain 1) (chain 0) (omega arith)
      (omega arith) (inr (omega arith)) separate
