-- ===== src/Machine.antt =====
-- src/kvm/vm.h: the devices of the machine, and the loop of `run_cpu` with what it does for each
-- reason for which the processor leaves the guest; src/kvm/vmm.h: the devices that `start` adds.
-- An exit is handled as one step. Several processors run the loop at once: their steps come in any
-- order, but the effects of one step are not interleaved with those of another.
pub mod Start
pub mod Ports
pub mod Kept
pub mod Running
pub mod Steps
pub mod Console
pub mod Virtio
pub mod Entropy
mod Tests
use kthxvm.Base.{
  ℕ, zero, suc, fault, ◌+◌, ◌*◌, Bool, true, false, Option, none, some, List, [], ◌∷◌, ◌++◌, length,
  get_or, drop, u32, ◌==◌, if◌then◌else◌, Result, ok, err, ◌>>=◌, Effect, output,
}
use kthxvm.Memory.{Memory}
use kthxvm.Interrupt.Lines.{Lines, no_lines, register_irq, deliver_to}
use kthxvm.Uart
use kthxvm.Uart.{Uart, Key}
use kthxvm.I8042
use kthxvm.I8042.{I8042}
use kthxvm.Mmio.{Backend, Register, Device}
use kthxvm.Mmio.Bus.{Range, in_range, offset, Slot, add_device, bus_read, bus_write, bus_update}

-- The classes of the devices in `io_devices`, and their virtual members. `junk` is the argument
-- of `Uart.update_irq`, and a write reads `data[0]`.
pub data IoDevice : Type 0 where
  keyboard : I8042 → IoDevice
  serial : Uart → IoDevice

pub dev_read : IoDevice → ℕ → ℕ → ℕ → IoDevice × List ℕ × List Effect
dev_read (keyboard k) junk at size =
    let (k', buf, es) = I8042.read k at size in (keyboard k', buf, es)
dev_read (serial u) junk at size =
    let (u', buf, es) = Uart.read u junk at size in (serial u', buf, es)

pub dev_write : IoDevice → ℕ → ℕ → ℕ → IoDevice × List Effect
dev_write (keyboard k) junk at byte = let (k', es) = I8042.write k at byte in (keyboard k', es)
dev_write (serial u) junk at byte = let (u', es) = Uart.write u junk at byte in (serial u', es)

pub record IoSlot : Type 0 where
  pub range : Range
  pub device : IoDevice
  pub irq : ℕ

-- `terminal` is what `term` was given.
pub record Machine (B : Type 0) : Type 0 where
  pub should_run : Bool
  pub lines : Lines
  pub io_devices : List IoSlot
  pub mmio : List (Slot B)
  pub memory : Memory
  pub terminal : List ℕ

-- The part of `struct kvm_run` for an access to a port; `buffer` is the area at `data_offset`.
pub data Direction : Type 0 where
  io_in io_out neither : Direction

pub record IoExit : Type 0 where
  pub direction : Direction
  pub port : ℕ
  pub size : ℕ
  pub count : ℕ
  pub buffer : List ℕ
  pub junk : ℕ

-- The part for an access to memory that is not the guest's.
pub record MmioExit : Type 0 where
  pub is_write : Bool
  pub phys_addr : ℕ
  pub len : ℕ
  pub buffer : List ℕ

-- `exit_reason`, with its part. The numbers of the reasons come from the kernel's headers.
pub data Exit : Type 0 where
  io : IoExit → Exit
  mmio : MmioExit → Exit
  debug shutdown hlt intr : Exit
  other : ℕ → Exit

-- `memcpy(area, buf.data(), buf.size())`
abbrev pub copied : List ℕ → List ℕ → List ℕ
copied buf area = buf ++ drop (length buf) area

-- What an access to a port leaves: the area for the data, and the bytes for the terminal, are the
-- last two.
pub record Accessed (D : Type 0) : Type 0 where
  pub lines : Lines
  pub device : D
  pub buffer : List ℕ
  pub sent : List ℕ

module _ (writable : ℕ → Bool) where
  pub io_read : Lines → IoSlot → IoExit → Result (Accessed IoSlot)
  io_read lines s e = do
    let (d, buf, es) = dev_read s.device e.junk (offset s.range e.port) (u32 (e.count * e.size))
    lines' ← deliver_to writable lines s.irq es
    ok (record {
      lines = lines';
      device = record s { device = d };
      buffer = copied buf e.buffer;
      sent = output es;
    })

  pub io_write : Lines → IoSlot → IoExit → Result (Accessed IoSlot)
  io_write lines s e = do
    let (d, es) = dev_write s.device e.junk (offset s.range e.port) (get_or e.buffer 0 0)
    lines' ← deliver_to writable lines s.irq es
    ok (record {
      lines = lines';
      device = record s { device = d };
      buffer = e.buffer;
      sent = output es;
    })

  pub in_direction : Direction → Lines → IoSlot → IoExit → Result (Accessed IoSlot)
  in_direction io_in lines s e = io_read lines s e
  in_direction io_out lines s e = io_write lines s e
  in_direction neither lines s e =
      ok (record { lines = lines; device = s; buffer = e.buffer; sent = [] })

  pub handle_io_device : Lines → IoSlot → IoExit → Result (Accessed IoSlot)
  handle_io_device lines s e = in_direction e.direction lines s e

  -- The loop over `io_devices`. Without a device, an access is at most printed.
  pub io_access : Lines → List IoSlot → IoExit → Result (Accessed (List IoSlot))
  io_access lines [] e = ok (record { lines = lines; device = []; buffer = e.buffer; sent = [] })
  io_access lines (s ∷ ss) e =
      let here = handle_io_device lines s e >>= λ a.
      ok (record { lines = a.lines; device = a.device ∷ ss; buffer = a.buffer; sent = a.sent }) in
      let later = io_access lines ss e >>= λ a.
      ok (record { lines = a.lines; device = s ∷ a.device; buffer = a.buffer; sent = a.sent }) in
      if in_range s.range e.port then here else later

-- What the loop does next: enter the guest again, which finds these bytes, or return a number.
pub data Next : Type 0 where
  resume : List ℕ → Next
  leave : ℕ → Next

module _ {B : Type 0} (ops : Backend B) (decode : ℕ → Register) (version_1 : ℕ)
    (writable : ℕ → Bool) where
  pub io_exit : Machine B → IoExit → Result (Machine B × Next)
  io_exit m e = do
    a ← io_access writable m.lines m.io_devices e
    ok (
      record m { lines = a.lines; io_devices = a.device; terminal = m.terminal ++ a.sent },
      resume a.buffer,
    )

  -- The read, and the write, before `mmio->update`.
  pub mmio_read : Machine B → MmioExit → Result (Lines × List (Slot B) × List ℕ)
  mmio_read m e = do
    buf ← bus_read ops decode version_1 writable m.lines m.mmio e.phys_addr e.len
    ok (m.lines, m.mmio, copied buf e.buffer)

  pub mmio_write : Machine B → MmioExit → Result (Lines × List (Slot B) × List ℕ)
  mmio_write m e = do
    (l, ss) ← bus_write ops decode version_1 writable m.lines m.mmio e.buffer e.phys_addr e.len
    ok (l, ss, e.buffer)

  pub mmio_exit : Machine B → MmioExit → Result (Machine B × Next)
  mmio_exit m e = do
    (l, ss, buffer) ← if e.is_write then mmio_write m e else mmio_read m e
    (l', ss', memory') ← bus_update ops decode version_1 writable l ss m.memory
    ok (record m { lines = l'; mmio = ss'; memory = memory' }, resume buffer)

  -- The `switch` of `run_cpu`.
  pub handle_exit : Machine B → Exit → Result (Machine B × Next)
  handle_exit m (io e) = io_exit m e
  handle_exit m (mmio e) = mmio_exit m e
  handle_exit m debug = ok (m, resume [])
  handle_exit m shutdown = ok (m, leave 0)
  handle_exit m hlt = ok (m, leave 0)
  handle_exit m intr = ok (m, resume [])
  handle_exit m (other reason) = ok (m, leave reason)

  -- The loop of `run_cpu`, for a processor that leaves the guest for these reasons and then stays
  -- in it: the machine, and the number that is returned, if the loop ends.
  pub run_cpu : Machine B → List Exit → Result (Machine B × Option ℕ)
  run_cpu m [] = ok (m, if m.should_run then none else some 1)
  run_cpu m (e ∷ es) =
      let step = handle_exit m e >>= λ (m', n). elim n [
        | resume buffer ↦ run_cpu m' es
        | leave code ↦ ok (m', some code)
      ] in
      if m.should_run then step else ok (m, some 1)
