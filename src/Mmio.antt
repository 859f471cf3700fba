-- ===== src/Mmio.antt =====
-- src/kvm/virtio/device.h and mmio.h: the register file of a virtio device, and the bus that finds
-- the device of an address; src/kvm/device/io_device.h.
-- The numbers of the registers come from linux/virtio_mmio.h, which is not part of the program:
-- `decode` says which case of the two `switch` statements an offset takes. The members that
-- a device class overrides are a record of operations on its own state.
pub mod Features
pub mod Setup
pub mod Bus
mod Tests
use kthxvm.Base.{
  word_bytes, from_bytes, ℕ, zero, suc, ◌+◌, ◌-◌, ◌*◌, ◌/◌, Bool, true, false, ◌&&◌, List, [], ◌∷◌,
  ◌++◌, bit_and, bit_or, u8, u32, u64, ltb, leb, ◌==◌, if◌then◌else◌, ◌<<<◌, ◌>>>◌, get_elem?, set,
  take, replicate, Option, none, some, Result, ok, err, fault, ◌>>=◌, Effect, set_level, sub64,
}
use kthxvm.Memory.{Memory}
use kthxvm.Queue.{Queue, queue_size_max, set_notify, set_ready, is_ready}

-- The case labels, in the order of `read` and `write`.
pub data Register : Type 0 where
  magic_value version device_id vendor_id status device_features : Register
  queue_num_max queue_ready config_generation interrupt_status : Register
  device_features_sel driver_features driver_features_sel guest_page_size : Register
  queue_sel queue_num queue_align queue_notify interrupt_ack : Register
  queue_desc_low queue_desc_high queue_avail_low queue_avail_high : Register
  queue_used_low queue_used_high : Register
  config : ℕ → Register
  unhandled : Register

-- What a call of `update` leaves; it takes the index of the selected queue and the queues.
pub record Updated (B : Type 0) : Type 0 where
  pub queues : List Queue
  pub backend : B
  pub memory : Memory
  pub effects : List Effect

-- The virtual members of `device`, on the state `B` of the class that overrides them.
pub record Backend (B : Type 0) : Type 0 where
  pub device_id : B → ℕ
  pub features : B → ℕ
  pub config_generation : B → ℕ
  pub read : B → ℕ → ℕ → Result (List ℕ)
  pub write : B → List ℕ → ℕ → ℕ → Result B
  pub update : ℕ → List Queue → B → Memory → Result (Updated B)

pub record Device (B : Type 0) : Type 0 where
  pub driver_features : ℕ
  pub queue_index : ℕ
  pub device_feature_sel : Bool
  pub driver_feature_sel : Bool
  pub status : ℕ
  pub queues : List Queue
  pub backend : B

-- `*((__u32 *)buf.data()) = v` on a new buffer of `size` bytes.
pub put_word : ℕ → ℕ → Result (List ℕ)
put_word size v = if ltb size 4 then err fault else ok (word_bytes 4 v ++ replicate (size - 4) 0)

-- `*queues[index]`, which has no check of the index.
unfoldable pub queue_at : List Queue → ℕ → Result Queue
queue_at qs i = elim (get_elem? qs i) [ none ↦ err fault | some q ↦ ok q ]

module _ {B : Type 0} where
  pub write_status : Device B → ℕ → Device B
  write_status d update = record d { status = u8 update }

  -- `dev.q()` changed by `f`.
  pub on_queue : Device B → ℕ → (Queue → Queue) → Result (Device B)
  on_queue d i f = queue_at d.queues i >>= λ q. ok (record d { queues = set d.queues i (f q) })

module _ {B : Type 0} (ops : Backend B) (decode : ℕ → Register) (version_1 : ℕ) where
  pub feature_bits : B → ℕ
  feature_bits b = bit_or (u32 (ops.features b)) (u64 (1 <<< version_1))

  -- `level` is the state of the device's interrupt line.
  pub read_register : Device B → Bool → Register → ℕ → Result (List ℕ)
  read_register d level magic_value size = put_word size 0x74726976
  read_register d level version size = put_word size 2
  read_register d level device_id size = put_word size (ops.device_id d.backend)
  read_register d level vendor_id size = put_word size 0x4b544858
  read_register d level status size = put_word size d.status
  read_register d level device_features size =
      let shift = if d.device_feature_sel then 32 else 0 in
      put_word size (bit_and (feature_bits d.backend >>> shift) 0xffffff)
  read_register d level queue_num_max size = put_word size queue_size_max
  read_register d level queue_ready size =
      queue_at d.queues d.queue_index >>= λ q. put_word size (if is_ready q then 0x1 else 0x0)
  read_register d level config_generation size = put_word size (ops.config_generation d.backend)
  read_register d level interrupt_status size = put_word size (if level then 0x1 else 0x0)
  read_register d level (config offset) size = ops.read d.backend offset size
  read_register d level _ size = ok (replicate size 0)

  pub read : Device B → Bool → ℕ → ℕ → Result (List ℕ)
  read d level offset size = read_register d level (decode offset) size

  pub write_register : Device B → List ℕ → Register → ℕ → Result (Device B × List Effect)
  write_register d bytes reg size =
      let value = from_bytes (take 4 bytes) in
      let done = λ (d' : Device B). ok (d', []) in
      let on = λ (i : ℕ) (f : Queue → Queue). on_queue d i f >>= done in
      let low = λ (a : ℕ). bit_or a (value <<< 0) in
      let high = λ (a : ℕ). bit_or a (u64 (value <<< 32)) in
      let shift = if d.driver_feature_sel then 32 else 0 in
      elim reg [
        | status ↦ done (write_status d value)
        | device_features_sel ↦ done (record d { device_feature_sel = value == 1 })
        | driver_features ↦
            done (record d { driver_features = bit_or d.driver_features (u64 (value <<< shift)) })
        | driver_features_sel ↦ done (record d { driver_feature_sel = value == 1 })
        | queue_sel ↦ done (record d { queue_index = value })
        | queue_num ↦ on d.queue_index (λ q. record q { size = value })
        | queue_ready ↦ on d.queue_index set_ready
        | queue_notify ↦ on value set_notify
        | queue_desc_low ↦ on d.queue_index (λ q. record q { desc_addr = low q.desc_addr })
        | queue_desc_high ↦ on d.queue_index (λ q. record q { desc_addr = high q.desc_addr })
        | queue_avail_low ↦ on d.queue_index (λ q. record q { avail_addr = low q.avail_addr })
        | queue_avail_high ↦ on d.queue_index (λ q. record q { avail_addr = high q.avail_addr })
        | queue_used_low ↦ on d.queue_index (λ q. record q { used_addr = low q.used_addr })
        | queue_used_high ↦ on d.queue_index (λ q. record q { used_addr = high q.used_addr })
        | interrupt_ack ↦ ok (d, if value == 0x1 then set_level false ∷ [] else [])
        | config offset ↦
            ops.write d.backend bytes offset size >>= λ b. done (record d { backend = b })
        | _ ↦ done d
      ]

  pub write : Device B → List ℕ → ℕ → ℕ → Result (Device B × List Effect)
  write d bytes offset size = write_register d bytes (decode offset) size
