-- ===== src/Blk.antt =====
-- src/kvm/virtio/blk.h, the block device: one round of the loop of `run` for each request.
-- The codes of the requests and of success come from linux/virtio_blk.h and are parameters.
-- A guest can link its descriptors in a circle, on which the loops do not end: they have fuel, and
-- the result is `none` if it is used up.
pub mod File
pub mod Transfer
pub mod Requests
pub mod Finished
pub mod Scatter
pub mod Written
pub mod Filled
pub mod Readback
pub mod Members
mod Tests
use kthxvm.Base.{
  ℕ, zero, suc, ◌+◌, ◌-◌, ◌*◌, Bool, true, false, not, ◌&&◌, Option, none, some, List, [], ◌∷◌, u32,
  u64, has, ltb, ◌==◌, if◌then◌else◌, take, length, Result, ok, err, fault, ◌>>=◌, Effect,
  set_level,
}
use kthxvm.Memory.{Memory, load, store_byte, write_bytes, read_bytes}
use kthxvm.Queue.{Queue, Descriptor, descriptor, desc_at, used_event, avail_id, next, add_used}
use kthxvm.Blk.File.{Stream, seek, stream_read, stream_write}

-- The cases of `switch (hdr->type)`.
pub data Request : Type 0 where
  reads writes get_id unhandled : Request

pub record Blk : Type 0 where
  pub queue : Queue
  pub memory : Memory
  pub file : Stream
  pub effects : List Effect

-- `DISK_ID`, with the zero at its end: "kthxvm" three times, then "disk".
abbrev pub disk_id : List ℕ
disk_id =
    107 ∷ 116 ∷ 104 ∷ 120 ∷ 118 ∷ 109 ∷ 107 ∷ 116 ∷ 104 ∷ 120 ∷ 118 ∷ 109 ∷ 107 ∷ 116 ∷ 104 ∷ 120
    ∷ 118 ∷ 109 ∷ 100 ∷ 105 ∷ 115 ∷ 107 ∷ 0 ∷ []

-- The loop of `VIRTIO_BLK_T_IN`, from the descriptor at `p` on: the memory, the file, the
-- descriptor that ends it, and the length. A descriptor is read again after the data is stored.
pub segments_in : ℕ → Queue → Memory → Stream → ℕ → ℕ → Option (Memory × Stream × ℕ × ℕ)
segments_in zero q m f p len = none
segments_in (suc n) q m f p len =
    let d = descriptor m p in
    let (f', bytes) = stream_read f d.len in
    let m' = write_bytes m d.addr bytes in
    let d' = descriptor m' p in
    let later = segments_in n q m' f' (desc_at q d'.next) (u32 (len + d'.len)) in
    if has d.flags 0x1 then later else some (m, f, p, len)

-- The loop of `VIRTIO_BLK_T_OUT`.
pub segments_out : ℕ → Queue → Memory → Stream → ℕ → ℕ → Option (Stream × ℕ × ℕ)
segments_out zero q m f p len = none
segments_out (suc n) q m f p len =
    let d = descriptor m p in
    let f' = stream_write f (read_bytes m d.addr d.len) in
    let later = segments_out n q m f' (desc_at q d.next) (u32 (len + d.len)) in
    if has d.flags 0x1 then later else some (f, p, len)

-- The end of a round: `idx - 1` is of type `int`.
pub finish : Queue → Memory → Stream → ℕ → ℕ → Result (Option Blk)
finish q m f start len = do
  (m', idx) ← add_used q m start len
  ok (
      some (record {
        queue = q;
        memory = m';
        file = f;
        effects = if not (idx == 0) && idx - 1 == used_event q m' then set_level true ∷ [] else [];
      }))

module _ (decode : ℕ → Request) (status_ok : ℕ) where
  -- The `switch`, for the request at `p`, which is number `start`, with `n` units of fuel.
  pub handle : ℕ → Queue → Memory → Stream → ℕ → ℕ → Result (Option Blk)
  handle n q m f p start =
      let hdr = (descriptor m p).addr in
      let f' = seek f (u64 (load 8 m (hdr + 8) * 512)) in
      let p1 = desc_at q (descriptor m p).next in
      let d1 = descriptor m p1 in
      let named = write_bytes m d1.addr (take d1.len disk_id) in
      let p2 = desc_at q (descriptor named p1).next in
      elim (decode (load 4 m hdr)) [
        | reads ↦ elim (segments_in n q m f' p1 0) [
          | none ↦ ok none
          | some (m1, f1, last, len) ↦
              finish q (store_byte m1 (descriptor m1 last).addr status_ok) f1 start (u32 (len + 1))
        ]
        | writes ↦ elim (segments_out n q m f' p1 0) [
          | none ↦ ok none
          | some (f1, last, len) ↦
              finish q (store_byte m (descriptor m last).addr status_ok) f1 start (u32 (len + 1))
        ]
        | get_id ↦
            if ltb 23 d1.len
            then err fault
            else finish q (store_byte named (descriptor named p2).addr status_ok) f start
                (u32 ((descriptor named p1).len + 1))
        | unhandled ↦ ok (some (record { queue = q; memory = m; file = f; effects = [] }))
      ]

  -- One round of the loop of `run`.
  pub run_round : ℕ → Queue → Memory → Stream → Result (Option Blk)
  run_round n q m f = do
    (q', o) ← next q m
    elim o [
      | none ↦ ok (some (record { queue = q'; memory = m; file = f; effects = [] }))
      | some p ↦ avail_id q' m >>= λ start. handle n q' m f p start
    ]
