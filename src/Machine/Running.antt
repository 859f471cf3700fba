-- ===== src/Machine/Running.antt =====
-- vm.h, vmm.h: neither an exit nor the terminal's input changes `should_run`.
use kthxvm.Base.{
  ℕ, ◌≡◌, refl, sym, ap, Bool, List, [], if◌then◌else◌, Result, ok, ok_of_bind, ok_injective,
}
use kthxvm.Uart.{Key}
use kthxvm.Mmio.{Backend, Register}
use kthxvm.Mmio.Bus.{bus_update}
use kthxvm.Machine.{
  Machine, IoExit, Exit, io, mmio, debug, shutdown, hlt, intr, other, io_access, Next, leave,
  resume, io_exit, MmioExit, mmio_read, mmio_write, mmio_exit, handle_exit,
}
use kthxvm.Machine.Start.{typed, read_terminal}

module _ {B : Type 0} (ops : Backend B) (decode : ℕ → Register) (version_1 : ℕ)
    (writable : ℕ → Bool) where
  io_exit-running :
      (m m' : Machine B) (e : IoExit) (n : Next)
      → io_exit ops decode version_1 writable m e ≡ ok (m', n)
      → m'.should_run ≡ m.should_run
  unfolding io_exit
  io_exit-running m m' e n h =
      let (a, taken, done) = ok_of_bind (io_access writable m.lines m.io_devices e) _ h in
      ap (λ (x : Machine B × Next). x.0.should_run) (sym (ok_injective done))

  mmio_exit-running :
      (m m' : Machine B) (e : MmioExit) (n : Next)
      → mmio_exit ops decode version_1 writable m e ≡ ok (m', n)
      → m'.should_run ≡ m.should_run
  unfolding mmio_exit
  mmio_exit-running m m' e n h =
      let (x, taken, rest) =
        ok_of_bind
          (if e.is_write
            then mmio_write ops decode version_1 writable m e
            else mmio_read ops decode version_1 writable m e)
          _ h in
      let (y, updated, done) =
        ok_of_bind (bus_update ops decode version_1 writable x.0 x.1 m.memory) _ rest in
      ap (λ (z : Machine B × Next). z.0.should_run) (sym (ok_injective done))

  same :
      {m m' : Machine B} {n n' : Next}
      → ◌≡◌ {A = Result (Machine B × Next)} (ok (m, n')) (ok (m', n))
      → m'.should_run ≡ m.should_run
  same h = ap (λ (z : Machine B × Next). z.0.should_run) (sym (ok_injective h))

  pub handle_exit-running :
      (e : Exit) (m m' : Machine B) (n : Next)
      → handle_exit ops decode version_1 writable m e ≡ ok (m', n)
      → m'.should_run ≡ m.should_run
  unfolding handle_exit
  handle_exit-running (io e) m m' n h = io_exit-running m m' e n h
  handle_exit-running (mmio e) m m' n h = mmio_exit-running m m' e n h
  handle_exit-running debug m m' n h = same h
  handle_exit-running shutdown m m' n h = same h
  handle_exit-running hlt m m' n h = same h
  handle_exit-running intr m m' n h = same h
  handle_exit-running (other reason) m m' n h = same h

  pub read_terminal-running :
      (m m' : Machine B) (junk : ℕ) (keys : List Key)
      → read_terminal writable m junk keys ≡ ok m'
      → m'.should_run ≡ m.should_run
  unfolding read_terminal
  read_terminal-running m m' junk keys h =
      let (a, taken, done) = ok_of_bind (typed writable m.lines m.io_devices 1 junk keys) _ h in
      ap (λ (x : Machine B). x.should_run) (sym (ok_injective done))

  -- A processor that halts leaves the machine as it is.
  pub handle_exit-hlt :
      (m : Machine B) → handle_exit ops decode version_1 writable m hlt ≡ ok (m, leave 0)
  unfolding handle_exit
  handle_exit-hlt m = refl

  -- Nor does a call that a signal interrupts, after which the processor goes on.
  pub handle_exit-intr :
      (m : Machine B) → handle_exit ops decode version_1 writable m intr ≡ ok (m, resume [])
  unfolding handle_exit
  handle_exit-intr m = refl
