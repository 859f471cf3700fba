-- ===== src/Queue.antt =====
-- src/kvm/virtio/queue.h, the device's side of a virtqueue `kvm::virtio::queue`.
-- Each method runs under the queue's mutex, so it is one step. The three rings lie in the guest's
-- memory, at the offsets of `descriptor_t`, `avail_t` and `used_t`.
pub mod Next
pub mod Served
pub mod Used
pub mod Table
pub mod Refine
mod Tests
use kthxvm.Base.{
  ℕ, ◌+◌, ◌*◌, ◌%◌, ◌≡◌, Bool, true, false, Option, none, some, arith, u16, u32, u64, sub32, leb,
  ◌==◌, if◌then◌else◌, Result, ok, err, fault, ◌>>=◌,
}
use kthxvm.Memory.{Memory, load, store}

pub record Queue : Type 0 where
  pub size : ℕ
  pub desc_addr : ℕ
  pub avail_addr : ℕ
  pub used_addr : ℕ
  pub notify : ℕ
  pub last_avail : ℕ
  pub ready : Bool

abbrev pub queue_size_max : ℕ
queue_size_max = 0x200

pub init : Queue
init = record {
  size = 0;
  desc_addr = 0;
  avail_addr = 0;
  used_addr = 0;
  notify = 0;
  last_avail = 0;
  ready = false;
}

-- `descriptor_elem_t`, and `desc()->ring[i]`.
pub record Descriptor : Type 0 where
  pub addr : ℕ
  pub len : ℕ
  pub flags : ℕ
  pub next : ℕ

abbrev pub desc_at : Queue → ℕ → ℕ
desc_at q i = q.desc_addr + 16 * i

unfoldable pub descriptor : Memory → ℕ → Descriptor
descriptor m p = record {
  addr = load 8 m p;
  len = load 4 m (p + 8);
  flags = load 2 m (p + 12);
  next = load 2 m (p + 14);
}

-- `avail_t`: flags, idx, ring, used_event.
abbrev pub avail_idx : Queue → Memory → ℕ
avail_idx q m = load 2 m (q.avail_addr + 2)

abbrev pub avail_ring : Queue → Memory → ℕ → ℕ
avail_ring q m i = load 2 m (q.avail_addr + 4 + 2 * i)

abbrev pub used_event : Queue → Memory → ℕ
used_event q m = load 2 m (q.avail_addr + 4 + 2 * queue_size_max)

-- `used_t`: flags, idx, ring of (id, len).
abbrev pub used_idx : Queue → Memory → ℕ
used_idx q m = load 2 m (q.used_addr + 2)

abbrev pub used_slot : Queue → ℕ → ℕ
used_slot q i = q.used_addr + 4 + 8 * i

-- A remainder by a size of zero is a division fault.
pub avail_id : Queue → Memory → Result ℕ
avail_id q m =
    if q.size == 0 then err fault else ok (avail_ring q m (sub32 q.last_avail 1 % q.size))

-- The queue after the call, and the address of a descriptor, or `none` for `nullptr`.
pub next : Queue → Memory → Result (Queue × Option ℕ)
next q m =
    let q' = record q { last_avail = u32 (q.last_avail + 1) } in
    let taken = avail_id q' m >>= λ id. ok (q', some (desc_at q id)) in
    if q.ready
    then (if leb (avail_idx q m) q.last_avail then ok (q, none) else taken)
    else ok (q, none)

pub pop_back : Queue → Queue
pop_back q = record q { last_avail = sub32 q.last_avail 1 }

-- The memory after the call, and the new index.
pub add_used : Queue → Memory → ℕ → ℕ → Result (Memory × ℕ)
add_used q m start len =
    let m1 = store 4 m (used_slot q (used_idx q m % q.size) + 4) len in
    let m2 = store 4 m1 (used_slot q (used_idx q m1 % q.size)) start in
    let m3 = store 2 m2 (q.used_addr + 2) (used_idx q m2 + 1) in
    if q.size == 0 then err fault else ok (m3, used_idx q m3)

unfoldable pub set_notify : Queue → Queue
set_notify q = record q { notify = u64 (q.notify + 1) }

unfoldable pub set_ready : Queue → Queue
set_ready q = record q { ready = true }

unfoldable pub is_ready : Queue → Bool
is_ready q = q.ready
