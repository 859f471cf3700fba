-- ===== src/Machine/Kept.antt =====
-- vm.h: what an access to a port keeps of the devices.
use kthxvm.Base.{
  ℕ, zero, suc, ◌≡◌, refl, ap, ◌∙◌, Bool, true, false, Bool-cases, inl, inr, Option, none, some,
  List, [], ◌∷◌, map, Result, ok, ◌>>=◌, ok_of_bind, ok_injective, get_or, u32, ◌*◌, subst,
}
use kthxvm.Interrupt.Lines.{Lines, deliver_to}
use kthxvm.Uart
use kthxvm.Uart.{Uart, Key}
use kthxvm.Uart.Invariant as UartInvariant
use kthxvm.Uart.Terminal.{read-has_term, write-has_term, write_stdio-has_term}
use kthxvm.I8042.Invariant as I8042Invariant
use kthxvm.Mmio.Bus.{Range, in_range, offset}
use kthxvm.Machine.{
  IoDevice, keyboard, serial, dev_read, dev_write, IoSlot, Direction, io_in, io_out, neither,
  IoExit, Accessed, in_direction, io_read, io_write, handle_io_device, io_access,
}
use kthxvm.Machine.Start.{typed_on, typed}

-- The state of a device is one that its own accesses can lead to.
abbrev pub IsValid : IoDevice → Type 0
IsValid (keyboard k) = I8042Invariant.IsValid k
IsValid (serial u) = UartInvariant.IsValid u

-- What stays: the place of a device, its line, its class and its terminal.
abbrev pub kind : IoDevice → Option Bool
kind (keyboard k) = none
kind (serial u) = some u.has_term

abbrev pub fixed : IoSlot → Range × ℕ × Option Bool
fixed s = (s.range, s.irq, kind s.device)

-- The devices of `start`: their ports, lines and, of the serial ports, whether there is a terminal.
abbrev pub start_fixed : List (Range × ℕ × Option Bool)
start_fixed =
    (record { addr = 0x60; width = 5 }, 1, none)
    ∷ (record { addr = 0x3f8; width = 8 }, 4, some true)
    ∷ (record { addr = 0x2f8; width = 8 }, 3, some false)
    ∷ (record { addr = 0x3e8; width = 8 }, 4, some false)
    ∷ (record { addr = 0x2e8; width = 8 }, 3, some false)
    ∷ []

abbrev pub AllValid : List IoSlot → Type 0
AllValid [] = Unit
AllValid (s ∷ ss) = IsValid s.device × AllValid ss

dev_read-IsValid :
    (d : IoDevice) (junk at size : ℕ)
    → IsValid d
    → IsValid (dev_read d junk at size).0 × (kind (dev_read d junk at size).0 ≡ kind d)
unfolding dev_read
dev_read-IsValid (keyboard k) junk at size v = (I8042Invariant.read-IsValid k at size v, refl)
dev_read-IsValid (serial u) junk at size v =
    (UartInvariant.read-IsValid u junk at size v, ap some (read-has_term u junk at size))

dev_write-IsValid :
    (d : IoDevice) (junk at byte : ℕ)
    → IsValid d
    → IsValid (dev_write d junk at byte).0 × (kind (dev_write d junk at byte).0 ≡ kind d)
unfolding dev_write
dev_write-IsValid (keyboard k) junk at byte v = (I8042Invariant.write-IsValid k at byte v, refl)
dev_write-IsValid (serial u) junk at byte v =
    (UartInvariant.write-IsValid u junk at byte v, ap some (write-has_term u junk at byte))

-- What an access keeps of a device, and of all of them.
abbrev Kept : IoSlot → IoSlot → Type 0
Kept s s' = IsValid s'.device × (fixed s' ≡ fixed s)

abbrev pub AllKept : List IoSlot → List IoSlot → Type 0
AllKept ss ss' = AllValid ss' × (map fixed ss' ≡ map fixed ss)

io_read-Kept :
    (writable : ℕ → Bool) (lines : Lines) (s : IoSlot) (e : IoExit) (a : Accessed IoSlot)
    → IsValid s.device
    → io_read writable lines s e ≡ ok a
    → Kept s a.device
unfolding io_read
io_read-Kept writable lines s e a v h =
    let size = u32 (e.count * e.size) in
    let d = dev_read s.device e.junk (offset s.range e.port) size in
    let k = dev_read-IsValid s.device e.junk (offset s.range e.port) size v in
    let (l, sent, done) = ok_of_bind (deliver_to writable lines s.irq d.2) _ h in
    subst (λ (x : Accessed IoSlot). Kept s x.device) (ok_injective done)
      (k.0, ap (λ (t : Option Bool). (s.range, s.irq, t)) k.1)

io_write-Kept :
    (writable : ℕ → Bool) (lines : Lines) (s : IoSlot) (e : IoExit) (a : Accessed IoSlot)
    → IsValid s.device
    → io_write writable lines s e ≡ ok a
    → Kept s a.device
unfolding io_write
io_write-Kept writable lines s e a v h =
    let b = get_or e.buffer 0 0 in
    let d = dev_write s.device e.junk (offset s.range e.port) b in
    let k = dev_write-IsValid s.device e.junk (offset s.range e.port) b v in
    let (l, sent, done) = ok_of_bind (deliver_to writable lines s.irq d.1) _ h in
    subst (λ (x : Accessed IoSlot). Kept s x.device) (ok_injective done)
      (k.0, ap (λ (t : Option Bool). (s.range, s.irq, t)) k.1)

in_direction-Kept :
    (dir : Direction) (writable : ℕ → Bool) (lines : Lines) (s : IoSlot) (e : IoExit)
    (a : Accessed IoSlot)
    → IsValid s.device
    → in_direction writable dir lines s e ≡ ok a
    → Kept s a.device
unfolding in_direction
in_direction-Kept io_in writable lines s e a v h = io_read-Kept writable lines s e a v h
in_direction-Kept io_out writable lines s e a v h = io_write-Kept writable lines s e a v h
in_direction-Kept neither writable lines s e a v h =
    subst (λ (x : Accessed IoSlot). Kept s x.device) (ok_injective h) (v, refl)

abbrev pub AccessKept : List IoSlot → Accessed (List IoSlot) → Type 0
AccessKept ss a = AllKept ss a.device

-- The device at the head took the access, or it was left out.
access_here :
    (s : IoSlot) (ss : List IoSlot) (r : Result (Accessed IoSlot)) (a : Accessed (List IoSlot))
    → ((x : Accessed IoSlot) → r ≡ ok x → Kept s x.device)
    → AllValid ss
    → (r >>= λ x.
        ok (record { lines = x.lines; device = x.device ∷ ss; buffer = x.buffer; sent = x.sent }))
      ≡ ok a
    → AllKept (s ∷ ss) a.device
access_here s ss r a kept vs h =
    let (x, e, done) = ok_of_bind r _ h in
    let k = kept x e in
    subst (AccessKept (s ∷ ss)) (ok_injective done)
      ((k.0, vs), ap (λ (f : Range × ℕ × Option Bool). f ∷ map fixed ss) k.1)

access_later :
    (s : IoSlot) (ss : List IoSlot) (r : Result (Accessed (List IoSlot)))
    (a : Accessed (List IoSlot))
    → ((x : Accessed (List IoSlot)) → r ≡ ok x → AllKept ss x.device)
    → IsValid s.device
    → (r >>= λ x.
        ok (record { lines = x.lines; device = s ∷ x.device; buffer = x.buffer; sent = x.sent }))
      ≡ ok a
    → AllKept (s ∷ ss) a.device
access_later s ss r a kept v h =
    let (x, e, done) = ok_of_bind r _ h in
    let k = kept x e in
    subst (AccessKept (s ∷ ss)) (ok_injective done) ((v, k.0), ap (◌∷◌ (fixed s)) k.1)

pub io_access-Kept :
    (writable : ℕ → Bool) (lines : Lines) (ss : List IoSlot) (e : IoExit)
    (a : Accessed (List IoSlot))
    → AllValid ss
    → io_access writable lines ss e ≡ ok a
    → AllKept ss a.device
unfolding io_access handle_io_device
io_access-Kept writable lines [] e a v h = subst (AccessKept []) (ok_injective h) (tt, refl)
io_access-Kept writable lines (s ∷ ss) e a (v, vs) h = elim (Bool-cases (in_range s.range e.port)) [
  | inl hit ↦
      access_here s ss (handle_io_device writable lines s e) a
        (λ x p. in_direction-Kept e.direction writable lines s e x v p) vs (rw hit at h)
  | inr miss ↦
      access_later s ss (io_access writable lines ss e) a
        (λ x p. io_access-Kept writable lines ss e x vs p) v (rw miss at h)
]

typed_on-Kept :
    (writable : ℕ → Bool) (lines : Lines) (s : IoSlot) (d : IoDevice) (junk : ℕ) (keys : List Key)
    (a : Accessed IoSlot)
    → IsValid d
    → kind d ≡ kind s.device
    → typed_on writable lines s d junk keys ≡ ok a
    → Kept s a.device
unfolding typed_on
typed_on-Kept writable lines s (keyboard k) junk keys a v same h = cc h
typed_on-Kept writable lines s (serial u) junk keys a v same h =
    let w = Uart.write_stdio u junk keys in
    let (l, sent, done) = ok_of_bind (deliver_to writable lines s.irq w.3) _ h in
    subst (λ (x : Accessed IoSlot). Kept s x.device) (ok_injective done)
      (
        UartInvariant.write_stdio-IsValid u junk keys v,
        ap (λ (t : Option Bool). (s.range, s.irq, t))
            (ap some (write_stdio-has_term u junk keys) ∙ same),
      )

pub typed-Kept :
    (writable : ℕ → Bool) (lines : Lines) (ss : List IoSlot) (i junk : ℕ) (keys : List Key)
    (a : Accessed (List IoSlot))
    → AllValid ss
    → typed writable lines ss i junk keys ≡ ok a
    → AllKept ss a.device
unfolding typed
typed-Kept writable lines [] i junk keys a v h = cc h
typed-Kept writable lines (s ∷ ss) zero junk keys a (v, vs) h =
    access_here s ss (typed_on writable lines s s.device junk keys) a
      (λ x p. typed_on-Kept writable lines s s.device junk keys x v refl p) vs h
typed-Kept writable lines (s ∷ ss) (suc i) junk keys a (v, vs) h =
    access_later s ss (typed writable lines ss i junk keys) a
      (λ x p. typed-Kept writable lines ss i junk keys x vs p) v h
