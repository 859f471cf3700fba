-- ===== src/Machine/Virtio.antt =====
-- vm.h with vmm.h: the classes of the devices on the bus of the machine.
use kthxvm.Base.{ℕ, List, Result, ok, ◌>>=◌}
use kthxvm.Memory.{Memory}
use kthxvm.Queue.{Queue}
use kthxvm.Config.{Config}
use kthxvm.Mmio.{Backend, Updated}
use kthxvm.Blk.Members as BlkMembers
use kthxvm.Rng.Members as RngMembers
use kthxvm.Net.Members as NetMembers

-- The state of a device that its class adds.
pub data Class : Type 0 where
  blk : Config → Class
  rng : Class
  net : Config → Class

-- A member of a class, on the state that holds it.
abbrev as_class : {B : Type 0} → (B → Class) → Result (Updated B) → Result (Updated Class)
as_class put r = r >>= λ u.
    ok (record {
      queues = u.queues;
      backend = put u.backend;
      memory = u.memory;
      effects = u.effects;
    })

module _ (blk_bits : BlkMembers.Bits) (net_bits : NetMembers.Bits) (random : ℕ → List ℕ)
    (rng_id : ℕ) where
  abbrev blks : Backend Config
  blks = BlkMembers.members blk_bits

  abbrev nets : Backend Config
  nets = NetMembers.members net_bits

  abbrev rngs : Backend Class
  rngs = RngMembers.members random rng_id

  unfoldable pub update : ℕ → List Queue → Class → Memory → Result (Updated Class)
  update index qs (blk c) m = as_class blk (blks.update index qs c m)
  update index qs rng m = rngs.update index qs rng m
  update index qs (net c) m = as_class net (nets.update index qs c m)

  unfoldable pub read : Class → ℕ → ℕ → Result (List ℕ)
  read (blk c) offset size = blks.read c offset size
  read rng offset size = rngs.read rng offset size
  read (net c) offset size = nets.read c offset size

  unfoldable pub write : Class → List ℕ → ℕ → ℕ → Result Class
  write (blk c) bytes offset size = blks.write c bytes offset size >>= λ c'. ok (blk c')
  write rng bytes offset size = rngs.write rng bytes offset size
  write (net c) bytes offset size = nets.write c bytes offset size >>= λ c'. ok (net c')

  unfoldable pub device_id : Class → ℕ
  device_id (blk c) = blks.device_id c
  device_id rng = rngs.device_id rng
  device_id (net c) = nets.device_id c

  unfoldable pub features : Class → ℕ
  features (blk c) = blks.features c
  features rng = rngs.features rng
  features (net c) = nets.features c

  unfoldable pub config_generation : Class → ℕ
  config_generation (blk c) = blks.config_generation c
  config_generation rng = rngs.config_generation rng
  config_generation (net c) = nets.config_generation c

  abbrev pub members : Backend Class
  members = record {
    device_id = device_id;
    features = features;
    config_generation = config_generation;
    read = read;
    write = write;
    update = update;
  }
