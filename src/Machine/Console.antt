-- ===== src/Machine/Console.antt =====
-- vm.h, uart.h: what the guest writes to the first serial port is what the terminal is given.
use kthxvm.Base.{
  ℕ, ◌+◌, ◌≡◌, refl, sym, ap, ◌∙◌, subst, Bool, true, not, ◌&&◌, Option, some, List, [], ◌∷◌, ◌++◌,
  map, get_elem?, set, get_or, if◌then◌else◌, ok, Effect, output, arith,
}
use mathlib.Core.Option.{some-injective}
use kthxvm.Interrupt.{Interrupt, level}
use kthxvm.Interrupt.Signals.{last_level, rising, deliver-signals}
use kthxvm.Interrupt.Lines.{Lines, line, deliver_to}
use kthxvm.Uart
use kthxvm.Uart.{Uart, is_loop}
use kthxvm.Uart.Fifo.{write_data_lem}
use kthxvm.Mmio.{Backend, Register}
use kthxvm.Mmio.Bus.{Range, offset}
use kthxvm.Machine.{
  serial, dev_write, IoSlot, Machine, Direction, io_out, IoExit, io, Accessed, io_write,
  in_direction, handle_io_device, io_access, resume, io_exit, handle_exit,
}
use kthxvm.Machine.Ports.{ranges, port_ranges, port_device, accessed_at, io_access-port_device}
use kthxvm.Machine.Kept.{IsValid, kind, AllValid, fixed, start_fixed}

deliver_to-ok :
    (writable : ℕ → Bool) (lines : Lines) (n : ℕ) (irq : Interrupt) (es : List Effect)
    → get_elem? lines n ≡ some (some irq)
    → writable irq.fd ≡ true
    → (l : Lines) × (deliver_to writable lines n es ≡ ok l)
unfolding deliver_to line
deliver_to-ok writable lines n irq es e w =
    let irq' = record irq {
      state = last_level (level irq) es;
      counter = irq.counter + rising (level irq) es;
    } in
    let got : line lines n ≡ ok irq = rw (e, line) refl in
    (set lines n (some irq'), rw (got, deliver-signals writable es irq w, deliver_to) refl)

-- A byte for the data register of a valid serial port.
serial_write :
    (writable : ℕ → Bool) (lines : Lines) (s : IoSlot) (e : IoExit) (u : Uart) (irq : Interrupt)
    (b : ℕ)
    → s.device ≡ serial u
    → Uart.Invariant.IsValid u
    → get_elem? lines s.irq ≡ some (some irq)
    → writable irq.fd ≡ true
    → offset s.range e.port ≡ 0
    → get_or e.buffer 0 0 ≡ b
    → (a : Accessed IoSlot) × (io_write writable lines s e ≡ ok a)
      × (a.buffer ≡ e.buffer)
      × (a.sent ≡ (if not (is_loop u) && u.has_term then b ∷ [] else []))
unfolding io_write dev_write
serial_write writable lines s e u irq b dev v at w first byte =
    let es = (Uart.write u e.junk 0 b).1 in
    let (l, sent) = deliver_to-ok writable lines s.irq irq es at w in
    let w' = Uart.write u e.junk 0 b in
    (
      record {
        lines = l;
        device = record s { device = serial w'.0 };
        buffer = e.buffer;
        sent = output es;
      },
      rw (dev, first, byte, sent) refl,
      refl,
      (write_data_lem u e.junk b v).1,
    )

-- What a description of the devices by `fixed` says of the ranges.
ranges_of_fixed :
    (ss : List IoSlot) → map (λ (f : Range × ℕ × Option Bool). f.0) (map fixed ss) ≡ ranges ss
ranges_of_fixed [] = refl
ranges_of_fixed (s ∷ ss) = ap (◌∷◌ (s.range)) (ranges_of_fixed ss)

second :
    (ss : List IoSlot) (s : IoSlot)
    → map fixed ss ≡ start_fixed
    → get_elem? ss 1 ≡ some s
    → fixed s ≡ (record { addr = 0x3f8; width = 8 }, 4, some true)
second [] s e at = cc at
second (k ∷ []) s e at = cc at
second (k ∷ t ∷ ss) s e at =
    let same : s ≡ t = sym (some-injective t s at) in
    let listed : some (fixed t) ≡ some (record { addr = 0x3f8; width = 8 }, 4, some true) =
      ap (λ (fs : List (Range × ℕ × Option Bool)). get_elem? fs 1) e in
    ap fixed same ∙ some-injective _ _ listed

abbrev console_at : List IoSlot → Accessed IoSlot → Accessed (List IoSlot)
console_at ss a = record {
  lines = a.lines;
  device = set ss 1 a.device;
  buffer = a.buffer;
  sent = a.sent;
}

at_second :
    (writable : ℕ → Bool) (lines : Lines) (ss : List IoSlot) (s : IoSlot) (e : IoExit)
    (a : Accessed IoSlot)
    → get_elem? ss 1 ≡ some s
    → handle_io_device writable lines s e ≡ ok a
    → accessed_at writable lines ss e (some 1) ≡ ok (console_at ss a)
at_second writable lines [] s e a at h = cc at
at_second writable lines (k ∷ []) s e a at h = cc at
at_second writable lines (k ∷ t ∷ ss) s e a at h =
    let same : t ≡ s = some-injective t s at in rw (same, h) refl

IsValid-second :
    (ss : List IoSlot) (s : IoSlot) → AllValid ss → get_elem? ss 1 ≡ some s → IsValid s.device
IsValid-second [] s v at = cc at
IsValid-second (k ∷ []) s v at = cc at
IsValid-second (k ∷ t ∷ ss) s (vk, (vt, vs)) at =
    subst (λ (x : IoSlot). IsValid x.device) (some-injective t s at) vt

module _ {B : Type 0} (ops : Backend B) (decode : ℕ → Register) (version_1 : ℕ)
    (writable : ℕ → Bool) where
  -- On a machine whose devices are valid and those of `start`, and whose line 4 is registered
  -- with an eventfd that can be written: when the guest writes a byte to port 0x3f8, the loop
  -- goes on, and the terminal has got that byte after all that it got before; in loopback mode it
  -- has got nothing more.
  pub handle_exit-console :
      (m : Machine B) (e : IoExit) (s : IoSlot) (u : Uart) (irq : Interrupt) (b : ℕ) (bs : List ℕ)
      → AllValid m.io_devices
      → map fixed m.io_devices ≡ start_fixed
      → get_elem? m.io_devices 1 ≡ some s
      → s.device ≡ serial u
      → get_elem? m.lines 4 ≡ some (some irq)
      → writable irq.fd ≡ true
      → e.direction ≡ io_out
      → e.port ≡ 0x3f8
      → e.buffer ≡ b ∷ bs
      → (m' : Machine B) × (handle_exit ops decode version_1 writable m (io e)
          ≡ ok (m', resume e.buffer))
        × (m'.terminal ≡ m.terminal ++ (if is_loop u then [] else b ∷ []))
  unfolding handle_exit io_exit handle_io_device in_direction offset
  handle_exit-console m e s u irq b bs v shape at dev line4 w out port buf =
      let f = second m.io_devices s shape at in
      let same_ranges : ranges m.io_devices ≡ port_ranges =
        sym (ranges_of_fixed m.io_devices)
        ∙ ap (map (λ (x : Range × ℕ × Option Bool). x.0)) shape in
      let valid : Uart.Invariant.IsValid u =
        subst IsValid dev (IsValid-second m.io_devices s v at) in
      let term : u.has_term ≡ true =
        some-injective _ _ (ap kind (sym dev) ∙ ap (λ (x : Range × ℕ × Option Bool). x.2) f) in
      let num : s.irq ≡ 4 = ap (λ (x : Range × ℕ × Option Bool). x.1) f in
      let place : s.range ≡ record { addr = 0x3f8; width = 8 } =
        ap (λ (x : Range × ℕ × Option Bool). x.0) f in
      let first : offset s.range e.port ≡ 0 = rw (place, port) refl in
      let (a, done, same, sent) =
        serial_write writable m.lines s e u irq b dev valid (rw num line4) w first (rw buf refl) in
      let all = console_at m.io_devices a in
      let access : io_access writable m.lines m.io_devices e ≡ ok all =
        io_access-port_device writable m.lines m.io_devices e same_ranges
        ∙ ap (λ (p : ℕ). accessed_at writable m.lines m.io_devices e (port_device p)) port
        ∙ at_second writable m.lines m.io_devices s e a at
            (ap (λ (d : Direction). in_direction writable d m.lines s e) out ∙ done) in
      (
        record m { lines = all.lines; io_devices = all.device; terminal = m.terminal ++ a.sent },
        rw (access, same) refl,
        ap (λ (bytes : List ℕ). m.terminal ++ bytes) (sent ∙ rw term (ground arith)),
      )
