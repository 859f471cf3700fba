-- ===== src/Rng.antt =====
-- src/kvm/virtio/rng.h, the entropy device. `random n` stands for `n` bytes read from /dev/random.
pub mod Update
pub mod Members
use kthxvm.Base.{
  ℕ, Option, none, some, List, [], ◌∷◌, true, u32, ◌>>=◌, ok, Result, Effect, set_level,
}
use kthxvm.Memory.{Memory, write_bytes}
use kthxvm.Queue.{Queue, descriptor, avail_id, next, add_used}

pub record Rng : Type 0 where
  pub queue : Queue
  pub memory : Memory
  pub effects : List Effect

module _ (random : ℕ → List ℕ) where
  -- The descriptor is read again, for its length, after the bytes are stored.
  pub update : Queue → Memory → Result Rng
  update q m = do
    (q', o) ← next q m
    elim o [
      | none ↦ ok (record { queue = q'; memory = m; effects = [] })
      | some p ↦ do
        start ← avail_id q' m
        let m' = write_bytes m (descriptor m p).addr (random (descriptor m p).len)
        (m'', idx) ← add_used q' m' start (u32 (descriptor m' p).len)
        ok (record { queue = q'; memory = m''; effects = set_level true ∷ [] })
    ]
