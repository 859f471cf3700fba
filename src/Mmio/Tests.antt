-- ===== src/Mmio/Tests.antt =====
-- virtio/mmio.h with the numbers that registers commonly have, and a device of class `rng` with one
-- queue.
use kthxvm.Base.{
  inr, none, some, word_bytes, ℕ, ◌≡◌, ◌+◌, ◌-◌, refl, Bool, true, false, List, [], ◌∷◌,
  if◌then◌else◌, leb, ◌==◌, ok, arith,
}
use kthxvm.Interrupt.Lines.{Lines}
use kthxvm.Queue.{Queue}
use kthxvm.Mmio.{
  Register, magic_value, version, device_id, vendor_id, status, device_features, queue_num_max,
  queue_ready, config_generation, interrupt_status, device_features_sel, driver_features,
  driver_features_sel, guest_page_size, queue_sel, queue_num, queue_align, queue_notify,
  interrupt_ack, queue_desc_low, queue_desc_high, queue_avail_low, queue_avail_high, queue_used_low,
  queue_used_high, config, unhandled, Backend, Device,
}
use kthxvm.Mmio.Setup.{run_writes, run_writes-programmed}
use kthxvm.Mmio.Bus.{Slot, IsRouted, bus_routes}

abbrev number : Register → ℕ
number magic_value = 0x0
number version = 0x4
number device_id = 0x8
number vendor_id = 0xc
number status = 0x70
number device_features = 0x10
number queue_num_max = 0x34
number queue_ready = 0x44
number config_generation = 0xfc
number interrupt_status = 0x60
number device_features_sel = 0x14
number driver_features = 0x20
number driver_features_sel = 0x24
number guest_page_size = 0x28
number queue_sel = 0x30
number queue_num = 0x38
number queue_align = 0x3c
number queue_notify = 0x50
number interrupt_ack = 0x64
number queue_desc_low = 0x80
number queue_desc_high = 0x84
number queue_avail_low = 0x90
number queue_avail_high = 0x94
number queue_used_low = 0xa0
number queue_used_high = 0xa4
number (config o) = 0x100 + o
number unhandled = 0x1

abbrev decode : ℕ → Register
decode o =
    if leb 0x100 o
    then config (o - 0x100)
    else if o == 0x0
    then magic_value
    else if o == 0x4
    then version
    else if o == 0x8
    then device_id
    else if o == 0xc
    then vendor_id
    else if o == 0x70
    then status
    else if o == 0x10
    then device_features
    else if o == 0x34
    then queue_num_max
    else if o == 0x44
    then queue_ready
    else if o == 0xfc
    then config_generation
    else if o == 0x60
    then interrupt_status
    else if o == 0x14
    then device_features_sel
    else if o == 0x20
    then driver_features
    else if o == 0x24
    then driver_features_sel
    else if o == 0x28
    then guest_page_size
    else if o == 0x30
    then queue_sel
    else if o == 0x38
    then queue_num
    else if o == 0x3c
    then queue_align
    else if o == 0x50
    then queue_notify
    else if o == 0x64
    then interrupt_ack
    else if o == 0x80
    then queue_desc_low
    else if o == 0x84
    then queue_desc_high
    else if o == 0x90
    then queue_avail_low
    else if o == 0x94
    then queue_avail_high
    else if o == 0xa0
    then queue_used_low
    else if o == 0xa4
    then queue_used_high
    else unhandled

decode-number : (r : Register) → decode (number r) ≡ r
decode-number magic_value = refl
decode-number version = refl
decode-number device_id = refl
decode-number vendor_id = refl
decode-number status = refl
decode-number device_features = refl
decode-number queue_num_max = refl
decode-number queue_ready = refl
decode-number config_generation = refl
decode-number interrupt_status = refl
decode-number device_features_sel = refl
decode-number driver_features = refl
decode-number driver_features_sel = refl
decode-number guest_page_size = refl
decode-number queue_sel = refl
decode-number queue_num = refl
decode-number queue_align = refl
decode-number queue_notify = refl
decode-number interrupt_ack = refl
decode-number queue_desc_low = refl
decode-number queue_desc_high = refl
decode-number queue_avail_low = refl
decode-number queue_avail_high = refl
decode-number queue_used_low = refl
decode-number queue_used_high = refl
decode-number (config o) = ground arith
decode-number unhandled = refl

abbrev ops : Backend Bool
ops = record {
  device_id = λ b. 4;
  features = λ b. 0x21000001;
  config_generation = λ b. 0;
  read = λ b offset size. ok [];
  write = λ b bytes offset size. ok b;
  update = λ index qs b m. ok (record { queues = qs; backend = b; memory = m; effects = [] });
}

abbrev blank : Queue
blank = record {
  size = 0;
  desc_addr = 0;
  avail_addr = 0;
  used_addr = 0;
  notify = 0;
  last_avail = 0;
  ready = false;
}

abbrev device : ℕ → Device Bool
device queue_index = record {
  driver_features = 0;
  queue_index = queue_index;
  device_feature_sel = false;
  driver_feature_sel = false;
  status = 0;
  queues = blank ∷ [];
  backend = true;
}

run_writes-programmed_example :
    run_writes ops decode 32 (device 0) ((0x38, 64) ∷ (0x80, 0x10) ∷ (0x80, 0x03) ∷ (0x44, 0) ∷ [])
    ≡ ok (record (device 0) {
      queues = record blank { size = 64; desc_addr = 0x13; ready = true } ∷ [];
    })
run_writes-programmed_example =
    run_writes-programmed ops decode 32 ((0x38, 64) ∷ (0x80, 0x10) ∷ (0x80, 0x03) ∷ (0x44, 0) ∷ [])
      (device 0) blank
      (refl, omega arith, (refl, omega arith, (refl, omega arith, (refl, omega arith, tt)))) refl

abbrev slot : ℕ → ℕ → Slot Bool
slot addr irq = record {
  range = record { addr = addr; width = 0x1000 };
  device = device 0;
  irq = irq;
}

abbrev slots : List (Slot Bool)
slots = slot 0xd0000000 0 ∷ slot 0xd0001000 1 ∷ []

abbrev lines : Lines
lines = none ∷ some (record { number = 1; fd = 7; state = false; counter = 0 }) ∷ []

bus_routes_example :
    IsRouted ops decode 32
      (λ fd. true)
      lines
      slots
      1
      (slot 0xd0001000 1)
      (word_bytes 8 15)
      0xd0001070
      4
bus_routes_example =
    bus_routes ops decode 32 (λ fd. true) lines slots 1 (slot 0xd0001000 1) (word_bytes 8 15)
      0xd0001070 4 refl (omega arith) (omega arith) (omega arith) (inr (omega arith), tt)
