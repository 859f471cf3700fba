-- ===== src/Machine/Ports.antt =====
-- vmm.h: the device that an address reaches on the machine of `start`.
use kthxvm.Base.{
  ℕ, zero, suc, ◌+◌, ◌/◌, ◌==◌, err, fault, Result, ◌>>=◌, sym, ap, ◌∙◌, inl, inr, Bool-cases, ◌≡◌,
  refl, Bool, true, false, ◌&&◌, Option, none, some, List, [], ◌∷◌, ltb, leb, if◌then◌else◌, ok,
  map, arith,
}
use kthxvm.Memory.{Memory}
use kthxvm.Interrupt
use kthxvm.Interrupt.{Interrupt}
use kthxvm.Interrupt.Lines.{Lines, register_irq}
use kthxvm.Uart
use kthxvm.I8042
use kthxvm.Mmio.{Device}
use kthxvm.Mmio.Bus.{Range, in_range}
use kthxvm.Machine.{
  keyboard, serial, IoSlot, Machine, IoExit, Accessed, handle_io_device, io_access,
}
use kthxvm.Machine.Start.{no_devices, add_io_device, add_mmio_device, add_devices}

module _ {B : Type 0} (eventfd : ℕ → ℕ) (cells : ℕ → ℕ → List ℕ) (blk rng net : Device B)
    (memory : Memory) where
  abbrev pub tty : ℕ → ℕ → Bool → ℕ → IoSlot
  tty addr irq term i = record {
    range = record { addr = addr; width = 8 };
    device = serial (Uart.init term (cells 64 i) (cells 64 (i + 8)));
    irq = irq;
  }

  abbrev opened : ℕ → Option Interrupt
  opened n = some (Interrupt.init n (eventfd n))

  -- The machine that `start` runs.
  abbrev pub started : Machine B
  started = record {
    should_run = true;
    lines =
        none
        ∷ opened 1
        ∷ none
        ∷ opened 3
        ∷ opened 4
        ∷ none
        ∷ none
        ∷ none
        ∷ none
        ∷ none
        ∷ none
        ∷ none
        ∷ opened 12
        ∷ opened 13
        ∷ opened 14
        ∷ none
        ∷ none
        ∷ none
        ∷ none
        ∷ none
        ∷ none
        ∷ none
        ∷ none
        ∷ none
        ∷ none
        ∷ none
        ∷ none
        ∷ none
        ∷ none
        ∷ none
        ∷ none
        ∷ none
        ∷ [];
    io_devices =
        record {
          range = record { addr = 0x60; width = 5 };
          device = keyboard (I8042.init (cells 16 0));
          irq = 1;
        }
        ∷ tty 0x3f8 4 true 1
        ∷ tty 0x2f8 3 false 2
        ∷ tty 0x3e8 4 false 3
        ∷ tty 0x2e8 3 false 4
        ∷ [];
    mmio =
        record { range = record { addr = 0xd0000000; width = 0x1000 }; device = blk; irq = 12 }
        ∷ record { range = record { addr = 0xd0001000; width = 0x1000 }; device = rng; irq = 13 }
        ∷ record { range = record { addr = 0xd0002000; width = 0x1000 }; device = net; irq = 14 }
        ∷ [];
    memory = memory;
    terminal = [];
  }

  pub add_devices-started : add_devices eventfd cells blk rng net (no_devices memory) ≡ ok started
  unfolding add_devices add_io_device add_mmio_device register_irq
  add_devices-started = refl

-- The place of the first range that has an address.
abbrev next_place : Option ℕ → Option ℕ
next_place none = none
next_place (some i) = some (suc i)

abbrev pub found : List Range → ℕ → Option ℕ
found [] a = none
found (r ∷ rs) a = if in_range r a then some zero else next_place (found rs a)

abbrev pub ranges : List IoSlot → List Range
ranges ss = map (λ (s : IoSlot). s.range) ss

-- The ranges of the ports of `start`, and the place of the device that a port belongs to.
abbrev pub port_ranges : List Range
port_ranges =
    record { addr = 0x60; width = 5 }
    ∷ record { addr = 0x3f8; width = 8 }
    ∷ record { addr = 0x2f8; width = 8 }
    ∷ record { addr = 0x3e8; width = 8 }
    ∷ record { addr = 0x2e8; width = 8 }
    ∷ []

abbrev pub port_device : ℕ → Option ℕ
port_device p =
    if leb 0x60 p && ltb p 0x65
    then some 0
    else if p / 8 == 0x7f
    then some 1
    else if p / 8 == 0x5f
    then some 2
    else if p / 8 == 0x7d
    then some 3
    else if p / 8 == 0x5d
    then some 4
    else none

found-port_ranges : (p : ℕ) → found port_ranges p ≡ port_device p
unfolding in_range
found-port_ranges p = ground arith

-- What an access leaves, when the device at place `i` takes it, or none.
abbrev pub accessed_at :
    (ℕ → Bool) → Lines → List IoSlot → IoExit → Option ℕ → Result (Accessed (List IoSlot))
accessed_at writable lines ss e none =
    ok (record { lines = lines; device = ss; buffer = e.buffer; sent = [] })
accessed_at writable lines [] e (some i) = err fault
accessed_at writable lines (s ∷ ss) e (some zero) = handle_io_device writable lines s e >>= λ a.
    ok (record { lines = a.lines; device = a.device ∷ ss; buffer = a.buffer; sent = a.sent })
accessed_at writable lines (s ∷ ss) e (some (suc i)) =
    accessed_at writable lines ss e (some i) >>= λ a.
    ok (record { lines = a.lines; device = s ∷ a.device; buffer = a.buffer; sent = a.sent })

accessed_later :
    (writable : ℕ → Bool) (lines : Lines) (s : IoSlot) (ss : List IoSlot) (e : IoExit)
    (o : Option ℕ)
    → accessed_at writable lines (s ∷ ss) e (next_place o) ≡ (
        accessed_at writable lines ss e o >>= λ a.
        ok (record { lines = a.lines; device = s ∷ a.device; buffer = a.buffer; sent = a.sent }))
accessed_later writable lines s ss e none = refl
accessed_later writable lines s ss e (some i) = refl

io_access-found :
    (writable : ℕ → Bool) (lines : Lines) (ss : List IoSlot) (e : IoExit)
    → io_access writable lines ss e ≡ accessed_at writable lines ss e (found (ranges ss) e.port)
unfolding io_access
io_access-found writable lines [] e = refl
io_access-found writable lines (s ∷ ss) e = elim (Bool-cases (in_range s.range e.port)) [
  | inl hit ↦ rw hit refl
  | inr miss ↦
      rw (miss, io_access-found writable lines ss e)
        (sym (accessed_later writable lines s ss e (found (ranges ss) e.port)))
]

-- On a machine whose ports are those of `start`, an access to a port reaches the keyboard, one of
-- the four serial ports, or no device, as the table of ports says; without a device it changes
-- nothing, and leaves the data as they were.
pub io_access-port_device :
    (writable : ℕ → Bool) (lines : Lines) (ss : List IoSlot) (e : IoExit)
    → ranges ss ≡ port_ranges
    → io_access writable lines ss e ≡ accessed_at writable lines ss e (port_device e.port)
io_access-port_device writable lines ss e same =
    io_access-found writable lines ss e
    ∙ ap (λ (rs : List Range). accessed_at writable lines ss e (found rs e.port)) same
    ∙ ap (accessed_at writable lines ss e) (found-port_ranges e.port)
