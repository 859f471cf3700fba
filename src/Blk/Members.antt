-- ===== src/Blk/Members.antt =====
-- blk.h: the members of `blk` that the register file calls. The device's number and the bits of
-- its features come from the kernel's headers. `update` does nothing.
use kthxvm.Base.{ℕ, bit_or, u32, ◌<<<◌, ok, []}
use kthxvm.Config
use kthxvm.Config.{Config}
use kthxvm.Mmio.{Backend}

-- VIRTIO_ID_BLOCK, VIRTIO_BLK_F_SIZE_MAX, VIRTIO_BLK_F_SEG_MAX, VIRTIO_RING_F_EVENT_IDX
pub record Bits : Type 0 where
  pub id : ℕ
  pub size_max : ℕ
  pub seg_max : ℕ
  pub event_idx : ℕ

abbrev pub features : Bits → ℕ
features bits =
    u32 (bit_or (bit_or (1 <<< bits.size_max) (1 <<< bits.seg_max)) (1 <<< bits.event_idx))

abbrev pub members : Bits → Backend Config
members bits = record {
  device_id = λ c. bits.id;
  features = λ c. features bits;
  config_generation = λ c. c.generation;
  read = Config.read;
  write = Config.write;
  update = λ index qs c m. ok (record { queues = qs; backend = c; memory = m; effects = [] });
}
