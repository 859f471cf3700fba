-- ===== src/Vmm/Machines.antt =====
-- vmm.h, vm.h: what the threads do to the machine is a sequence of its steps (Machine.Steps).
use kthxvm.Base.{ℕ, ◌≡◌, refl, sym, subst, Bool, some, List, [], ◌∷◌, map, length, ok}
use kthxvm.Memory.{Memory}
use kthxvm.Mmio.{Backend, Register, Device}
use kthxvm.Machine.{Machine}
use kthxvm.Machine.Start.{stop, add_devices, no_devices}
use kthxvm.Machine.Kept.{AllValid, fixed, start_fixed}
use kthxvm.Machine.Steps.{Step, exits, types, stops, Reach, here, step, Reach-add_devices}
use kthxvm.Vmm.{Main, Threads, Move, moves, threads_started}
use kthxvm.Vmm.View.{
  MainStep, first_joined, stopped, joined, all_joined, ended, terminal_joined, Moved, by_main,
  tested, left, terminal_tested, typed, unreadable, moves-cons, moves-nil,
}

module _ {B : Type 0} (ops : Backend B) (decode : ℕ → Register) (version_1 : ℕ)
    (writable : ℕ → Bool) (n : ℕ) where
  abbrev pub Reaches : Machine B → Machine B → Type 0
  Reaches = Reach ops decode version_1 writable

  -- The machine stays, or makes one step.
  data Advance (m : Machine B) : Machine B → Type 0 where
    stays : (m' : Machine B) → m' ≡ m → Advance m m'
    steps : (m' : Machine B) → Step ops decode version_1 writable m m' → Advance m m'

  after-Advance : (s m m' : Machine B) → Reaches s m → Advance m m' → Reaches s m'
  after-Advance s m m' r (stays _ same) = subst (Reaches s) (sym same) r
  after-Advance s m m' r (steps _ st) = step r st

  start-Advance :
      (t t' : Threads B) (m : Main)
      → MainStep ops decode version_1 writable n t m t'
      → Advance t.machine t'.machine
  start-Advance t _ _ (first_joined at) = stays t.machine refl
  start-Advance t _ _ stopped = steps (stop t.machine) (stops refl)
  start-Advance t _ _ (joined i more at) = stays t.machine refl
  start-Advance t _ _ (all_joined i no_more) = stays t.machine refl
  start-Advance t _ _ ended = stays t.machine refl
  start-Advance t _ _ (terminal_joined at) = stays t.machine refl

  move-Advance :
      (t t' : Threads B) (a : Move)
      → Moved ops decode version_1 writable n t a t'
      → Advance t.machine t'.machine
  move-Advance t t' _ (by_main _ st) = start-Advance t t' t.main st
  move-Advance t _ _ (tested i at) = stays t.machine refl
  move-Advance t _ _ (left i e m next at taken) = steps m (exits e next taken)
  move-Advance t _ _ (terminal_tested at) = stays t.machine refl
  move-Advance t _ _ (typed junk keys m at taken) = steps m (types junk keys taken)
  move-Advance t _ _ (unreadable at) = stays t.machine refl

  moves-Reach :
      (s : Machine B) (t t' : Threads B) (all : List Move)
      → Reaches s t.machine
      → moves ops decode version_1 writable n t all ≡ some t'
      → Reaches s t'.machine
  moves-Reach s t t' [] r h =
      subst (λ (x : Threads B). Reaches s x.machine)
        (moves-nil ops decode version_1 writable n t t' h) r
  moves-Reach s t t' (a ∷ rest) r h =
      let (next, first, later) = moves-cons ops decode version_1 writable n t t' a rest h in
      moves-Reach s next t' rest
        (after-Advance s t.machine next.machine r (move-Advance t next a first)) later

  -- With devices of which the cells have their sizes, on the machine of `start`, after any moves
  -- of all threads in any order: what became of the machine is a sequence of exits, of typed
  -- input and of stops; every keyboard controller and serial port is in a valid state, and each
  -- device has the ports, the line and, if it is a serial port, the terminal or none that `start`
  -- gave it.
  pub moves-add_devices :
      (eventfd : ℕ → ℕ) (cells : ℕ → ℕ → List ℕ) (blk rng net : Device B) (memory : Memory)
      (s : Machine B) (t : Threads B) (all : List Move)
      → ((k i : ℕ) → length (cells k i) ≡ k)
      → add_devices eventfd cells blk rng net (no_devices memory) ≡ ok s
      → moves ops decode version_1 writable n (threads_started s) all ≡ some t
      → Reaches s t.machine
        × AllValid t.machine.io_devices
        × (map fixed t.machine.io_devices ≡ start_fixed)
  moves-add_devices eventfd cells blk rng net memory s t all sized made h =
      let r = moves-Reach s (threads_started s) t all here h in
      let (valid, kept) =
        Reach-add_devices ops decode version_1 writable eventfd cells blk rng net memory s t.machine
          sized made r in
      (r, valid, kept)
