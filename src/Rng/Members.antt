-- ===== src/Rng/Members.antt =====
-- rng.h: the members of `rng` that the register file calls. The class has no configuration, and
-- its state is that of the file, which `random` stands for. The device's number comes from the
-- kernel's headers.
use kthxvm.Base.{ℕ, List, replicate, set, ok, ◌>>=◌, Result}
use kthxvm.Memory.{Memory}
use kthxvm.Queue.{Queue}
use kthxvm.Mmio.{Backend, Updated, queue_at}
use kthxvm.Rng.{update}

-- `update` on the queues of the device: `q()` is the one that the driver has selected.
unfoldable pub update_selected :
    {B : Type 0} → (ℕ → List ℕ) → ℕ → List Queue → B → Memory → Result (Updated B)
update_selected random index qs b m = do
  q ← queue_at qs index
  r ← update random q m
  ok (record { queues = set qs index r.queue; backend = b; memory = r.memory; effects = r.effects })

abbrev pub members : {B : Type 0} → (ℕ → List ℕ) → ℕ → Backend B
members random id = record {
  device_id = λ b. id;
  features = λ b. 0;
  config_generation = λ b. 0;
  read = λ b offset size. ok (replicate size 0);
  write = λ b bytes offset size. ok b;
  update = λ index qs b m. update_selected random index qs b m;
}
