-- ===== src/Machine/Steps.antt =====
-- vm.h, vmm.h: the steps of a running machine, in any order, and what they keep.
use kthxvm.Base.{
  ℕ, ◌+◌, ◌≡◌, refl, sym, ◌∙◌, Bool, true, false, List, map, length, if◌then◌else◌, ok, ok_of_bind,
  ok_injective, subst,
}
use kthxvm.Memory.{Memory}
use kthxvm.Uart
use kthxvm.Uart.{Uart, Key}
use kthxvm.Uart.Invariant as UartInvariant
use kthxvm.Uart.Terminal.{init-has_term}
use kthxvm.I8042.Invariant as I8042Invariant
use kthxvm.Mmio.{Backend, Register, Device}
use kthxvm.Mmio.Bus.{bus_update}
use kthxvm.Machine.{
  Machine, IoExit, Exit, io, mmio, debug, shutdown, hlt, intr, other, io_access, Next, io_exit,
  MmioExit, mmio_read, mmio_write, mmio_exit, handle_exit,
}
use kthxvm.Machine.Start.{stop, typed, read_terminal, no_devices, add_devices}
use kthxvm.Machine.Kept.{AllValid, AllKept, fixed, start_fixed, io_access-Kept, typed-Kept}
use kthxvm.Machine.Ports.{started, add_devices-started}

-- The serial port of `start` with these cells, and all its devices.
tty-IsValid :
    (cells : ℕ → ℕ → List ℕ) (term : Bool) (i : ℕ)
    → ((n j : ℕ) → length (cells n j) ≡ n)
    → UartInvariant.IsValid (Uart.init term (cells 64 i) (cells 64 (i + 8)))
tty-IsValid cells term i sized =
    UartInvariant.init-IsValid term (cells 64 i) (cells 64 (i + 8)) (sized 64 i) (sized 64 (i + 8))

module _ {B : Type 0} (ops : Backend B) (decode : ℕ → Register) (version_1 : ℕ)
    (writable : ℕ → Bool) where
  -- A processor leaves the guest, the terminal has input, or the processors are told to stop.
  pub data Step (m m' : Machine B) : Type 0 where
    exits :
        (e : Exit) (n : Next)
        → handle_exit ops decode version_1 writable m e ≡ ok (m', n)
        → Step m m'
    types : (junk : ℕ) (keys : List Key) → read_terminal writable m junk keys ≡ ok m' → Step m m'
    stops : m' ≡ stop m → Step m m'

  pub data Reach (s : Machine B) : Machine B → Type 0 where
    here : Reach s s
    step : {m m' : Machine B} → Reach s m → Step m m' → Reach s m'

  abbrev StepKept : Machine B → Machine B × Next → Type 0
  StepKept m x = AllKept m.io_devices x.0.io_devices

  io_exit-Kept :
      (m m' : Machine B) (e : IoExit) (n : Next)
      → AllValid m.io_devices
      → io_exit ops decode version_1 writable m e ≡ ok (m', n)
      → AllKept m.io_devices m'.io_devices
  unfolding io_exit
  io_exit-Kept m m' e n v h =
      let (a, taken, done) = ok_of_bind (io_access writable m.lines m.io_devices e) _ h in
      subst (StepKept m) (ok_injective done)
        (io_access-Kept writable m.lines m.io_devices e a v taken)

  mmio_exit-Kept :
      (m m' : Machine B) (e : MmioExit) (n : Next)
      → AllValid m.io_devices
      → mmio_exit ops decode version_1 writable m e ≡ ok (m', n)
      → AllKept m.io_devices m'.io_devices
  unfolding mmio_exit
  mmio_exit-Kept m m' e n v h =
      let (x, taken, rest) =
        ok_of_bind
          (if e.is_write
            then mmio_write ops decode version_1 writable m e
            else mmio_read ops decode version_1 writable m e)
          _ h in
      let (y, updated, done) =
        ok_of_bind (bus_update ops decode version_1 writable x.0 x.1 m.memory) _ rest in
      subst (StepKept m) (ok_injective done) (v, refl)

  handle_exit-Kept :
      (e : Exit) (m m' : Machine B) (n : Next)
      → AllValid m.io_devices
      → handle_exit ops decode version_1 writable m e ≡ ok (m', n)
      → AllKept m.io_devices m'.io_devices
  unfolding handle_exit
  handle_exit-Kept (io e) m m' n v h = io_exit-Kept m m' e n v h
  handle_exit-Kept (mmio e) m m' n v h = mmio_exit-Kept m m' e n v h
  handle_exit-Kept debug m m' n v h = subst (StepKept m) (ok_injective h) (v, refl)
  handle_exit-Kept shutdown m m' n v h = subst (StepKept m) (ok_injective h) (v, refl)
  handle_exit-Kept hlt m m' n v h = subst (StepKept m) (ok_injective h) (v, refl)
  handle_exit-Kept intr m m' n v h = subst (StepKept m) (ok_injective h) (v, refl)
  handle_exit-Kept (other reason) m m' n v h = subst (StepKept m) (ok_injective h) (v, refl)

  read_terminal-Kept :
      (m m' : Machine B) (junk : ℕ) (keys : List Key)
      → AllValid m.io_devices
      → read_terminal writable m junk keys ≡ ok m'
      → AllKept m.io_devices m'.io_devices
  unfolding read_terminal
  read_terminal-Kept m m' junk keys v h =
      let (a, taken, done) = ok_of_bind (typed writable m.lines m.io_devices 1 junk keys) _ h in
      subst (λ (x : Machine B). AllKept m.io_devices x.io_devices) (ok_injective done)
        (typed-Kept writable m.lines m.io_devices 1 junk keys a v taken)

  Step-AllKept :
      {m m' : Machine B} → Step m m' → AllValid m.io_devices → AllKept m.io_devices m'.io_devices
  unfolding stop
  Step-AllKept {m} {m'} (exits e n h) v = handle_exit-Kept e m m' n v h
  Step-AllKept {m} {m'} (types junk keys h) v = read_terminal-Kept m m' junk keys v h
  Step-AllKept {m} {m'} (stops e) v = rw e (v, refl)

  Reach-AllKept :
      {s m : Machine B} → Reach s m → AllValid s.io_devices → AllKept s.io_devices m.io_devices
  Reach-AllKept here v = (v, refl)
  Reach-AllKept (step r st) v =
      let before = Reach-AllKept r v in
      let after = Step-AllKept st before.0 in (after.0, after.1 ∙ before.1)

  -- From the machine of `start`, after any steps of the processors and the terminal in any order:
  -- the state of each keyboard controller and serial port is valid, and each device has the
  -- ports, the line and, if it is a serial port, the terminal or none that `start` gave it.
  pub Reach-add_devices :
      (eventfd : ℕ → ℕ) (cells : ℕ → ℕ → List ℕ) (blk rng net : Device B) (memory : Memory)
      (s m : Machine B)
      → ((n i : ℕ) → length (cells n i) ≡ n)
      → add_devices eventfd cells blk rng net (no_devices memory) ≡ ok s
      → Reach s m
      → AllValid m.io_devices × (map fixed m.io_devices ≡ start_fixed)
  Reach-add_devices eventfd cells blk rng net memory s m sized h r =
      let s0 = started eventfd cells blk rng net memory in
      let same : s0 ≡ s =
        ok_injective (sym (add_devices-started eventfd cells blk rng net memory) ∙ h) in
      let from_start : Reach s0 m = subst (λ (x : Machine B). Reach x m) (sym same) r in
      let valid : AllValid s0.io_devices = (
        I8042Invariant.init-IsValid (cells 16 0) (sized 16 0),
        (
          tty-IsValid cells true 1 sized,
          (
            tty-IsValid cells false 2 sized,
            (tty-IsValid cells false 3 sized, (tty-IsValid cells false 4 sized, tt)),
          ),
        ),
      ) in
      let kept = Reach-AllKept from_start valid in (kept.0, kept.1 ∙ simp init-has_term)
