-- ===== src/Machine/Start.antt =====
-- vm.h and vmm.h: adding the devices of the machine, and what the other threads do to it: the one
-- that reads the terminal, and the one that stops the processors.
use kthxvm.Base.{
  ℕ, ◌+◌, zero, suc, fault, Bool, true, false, List, [], ◌∷◌, ◌++◌, Result, ok, err, ◌>>=◌, output,
}
use kthxvm.Memory.{Memory}
use kthxvm.Interrupt.Lines.{Lines, no_lines, register_irq, deliver_to}
use kthxvm.Uart
use kthxvm.Uart.{Uart, Key}
use kthxvm.I8042
use kthxvm.Mmio.{Device}
use kthxvm.Mmio.Bus.{add_device}
use kthxvm.Machine.{IoDevice, keyboard, serial, IoSlot, Machine, Accessed}

module _ {B : Type 0} where
  unfoldable pub stop : Machine B → Machine B
  stop m = record m { should_run = false }

  -- `add_io_device`, `add_mmio_device`: the line is registered first.
  unfoldable pub add_io_device : Machine B → ℕ → ℕ → ℕ → ℕ → IoDevice → Result (Machine B)
  add_io_device m addr width irq eventfd d = do
    l ← register_irq m.lines irq eventfd
    let s : IoSlot = record { range = record { addr = addr; width = width }; device = d; irq = irq }
    ok (record m { lines = l; io_devices = m.io_devices ++ (s ∷ []) })

  unfoldable pub add_mmio_device : Machine B → ℕ → ℕ → ℕ → ℕ → Device B → Result (Machine B)
  add_mmio_device m addr width irq eventfd d = do
    l ← register_irq m.lines irq eventfd
    ok (record m { lines = l; mmio = add_device m.mmio addr width irq d })

  -- The devices of `vmm::start`, in its order. `eventfd n` is what is opened for line `n`, and
  -- `cells n i` the content of an array of `n` cells of device `i` before it is used.
  unfoldable pub add_devices :
      (ℕ → ℕ) → (ℕ → ℕ → List ℕ) → Device B → Device B → Device B → Machine B → Result (Machine B)
  add_devices eventfd cells blk rng net m = do
    let tty = λ (term : Bool) (i : ℕ). serial (Uart.init term (cells 64 i) (cells 64 (i + 8)))
    m1 ← add_io_device m 0x60 5 1 (eventfd 1) (keyboard (I8042.init (cells 16 0)))
    m2 ← add_io_device m1 0x3f8 8 4 (eventfd 4) (tty true 1)
    m3 ← add_io_device m2 0x2f8 8 3 (eventfd 3) (tty false 2)
    m4 ← add_io_device m3 0x3e8 8 4 (eventfd 4) (tty false 3)
    m5 ← add_io_device m4 0x2e8 8 3 (eventfd 3) (tty false 4)
    m6 ← add_mmio_device m5 0xd0000000 0x1000 12 (eventfd 12) blk
    m7 ← add_mmio_device m6 0xd0001000 0x1000 13 (eventfd 13) rng
    add_mmio_device m7 0xd0002000 0x1000 14 (eventfd 14) net

-- The members of `vm` before a device is added; the array `interrupts` holds null pointers.
abbrev pub no_devices : {B : Type 0} → Memory → Machine B
no_devices memory = record {
  should_run = true;
  lines = no_lines;
  io_devices = [];
  mmio = [];
  memory = memory;
  terminal = [];
}

-- `write_stdio` of a device, and of the one at a place: `read_terminal` calls that of the device
-- that `ttyS0` points to, which is number 1.
unfoldable pub typed_on :
    (ℕ → Bool) → Lines → IoSlot → IoDevice → ℕ → List Key → Result (Accessed IoSlot)
typed_on writable lines s (keyboard k) junk keys = err fault
typed_on writable lines s (serial u) junk keys = do
  let (u', n, rest, es) = Uart.write_stdio u junk keys
  lines' ← deliver_to writable lines s.irq es
  ok (record {
    lines = lines';
    device = record s { device = serial u' };
    buffer = [];
    sent = output es;
  })

unfoldable pub typed :
    (ℕ → Bool) → Lines → List IoSlot → ℕ → ℕ → List Key → Result (Accessed (List IoSlot))
typed writable lines [] i junk keys = err fault
typed writable lines (s ∷ ss) zero junk keys = typed_on writable lines s s.device junk keys >>= λ a.
    ok (record { lines = a.lines; device = a.device ∷ ss; buffer = a.buffer; sent = a.sent })
typed writable lines (s ∷ ss) (suc i) junk keys = typed writable lines ss i junk keys >>= λ a.
    ok (record { lines = a.lines; device = s ∷ a.device; buffer = a.buffer; sent = a.sent })

unfoldable pub read_terminal :
    {B : Type 0} → (ℕ → Bool) → Machine B → ℕ → List Key → Result (Machine B)
read_terminal writable m junk keys = do
  a ← typed writable m.lines m.io_devices 1 junk keys
  ok (record m { lines = a.lines; io_devices = a.device; terminal = m.terminal ++ a.sent })
