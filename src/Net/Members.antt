-- ===== src/Net/Members.antt =====
-- net.h: the members of `net` that the register file calls. The device's number and the bits of
-- its features come from the kernel's headers.
use kthxvm.Base.{ℕ, bit_or, u32, ◌<<<◌, ok, []}
use kthxvm.Config
use kthxvm.Config.{Config}
use kthxvm.Mmio.{Backend}

-- VIRTIO_ID_NET, and the names VIRTIO_NET_F_… of the bits.
pub record Bits : Type 0 where
  pub id : ℕ
  pub mac : ℕ
  pub csum : ℕ
  pub host_tso4 : ℕ
  pub guest_tso4 : ℕ
  pub host_tso6 : ℕ
  pub guest_tso6 : ℕ
  pub host_ufo : ℕ
  pub guest_ufo : ℕ

abbrev pub features : Bits → ℕ
features bits =
    let a = bit_or (1 <<< bits.mac) (1 <<< bits.csum) in
    let b = bit_or (bit_or a (1 <<< bits.host_tso4)) (1 <<< bits.guest_tso4) in
    let c = bit_or (bit_or b (1 <<< bits.host_tso6)) (1 <<< bits.guest_tso6) in
    u32 (bit_or (bit_or c (1 <<< bits.host_ufo)) (1 <<< bits.guest_ufo))

-- `update` does nothing.
abbrev pub members : Bits → Backend Config
members bits = record {
  device_id = λ c. bits.id;
  features = λ c. features bits;
  config_generation = λ c. c.generation;
  read = Config.read;
  write = Config.write;
  update = λ index qs c m. ok (record { queues = qs; backend = c; memory = m; effects = [] });
}
