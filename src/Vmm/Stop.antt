-- ===== src/Vmm/Stop.antt =====
-- vmm.h, vm.h: what the threads still do after `vm::stop`, and what `start` waits for.
use kthxvm.Base.{
  ℕ, ◌+◌, ◌≤◌, ◌≡◌, refl, ◌∙◌, Bool, false, some, Bool-cases, inl, inr, List, [], ◌∷◌, ◌==◌,
  if◌then◌else◌, arith,
}
use kthxvm.Mmio.{Backend, Register}
use kthxvm.Machine.{Next, resume, leave}
use kthxvm.Machine.Start.{stop}
use kthxvm.Vmm.{
  Place, at_test, blocked, finished, Main, Threads, Move, main_moves, cpu_tests, cpu_exits,
  terminal_tests, terminal_polled, set_at, place_after, moves,
}
use kthxvm.Machine.Running.{handle_exit-running, read_terminal-running}
use kthxvm.Vmm.View.{
  MainStep, first_joined, stopped, joined, all_joined, ended, terminal_joined, Moved, by_main,
  tested, left, terminal_tested, typed, unreadable, moves-cons, moves-nil,
}

-- The exits of a processor that is at this place and finds that it is to stop.
abbrev pub exits_left : Place → ℕ
exits_left at_test = 0
exits_left blocked = 1
exits_left finished = 0

abbrev pub exit_count : ℕ → Move → ℕ
exit_count i main_moves = 0
exit_count i (cpu_tests j) = 0
exit_count i (cpu_exits j e) = if i == j then 1 else 0
exit_count i terminal_tests = 0
exit_count i (terminal_polled input) = 0

abbrev pub exits : ℕ → List Move → ℕ
exits i [] = 0
exits i (a ∷ rest) = exit_count i a + exits i rest

exits_left-after : (next : Next) → exits_left (place_after next) ≡ 0
exits_left-after (resume buffer) = refl
exits_left-after (leave code) = refl

-- Moving on from the test, and from an exit, of processor `j`.
set_at-tests : (f : ℕ → Place) (i j : ℕ) → exits_left (set_at j finished f i) ≤ exits_left (f i)
set_at-tests f i j = ground arith

set_at-exits :
    (f : ℕ → Place) (i j : ℕ) (next : Next)
    → f j ≡ blocked
    → exits_left (set_at j (place_after next) f i) + (if i == j then 1 else 0) ≤ exits_left (f i)
set_at-exits f i j next at = elim (Bool-cases (i == j)) [
  | inl same ↦
      let here : i ≡ j = ground arith in
      rw same (rw here (rw at (omega (arith, exits_left-after next))))
  | inr other ↦ rw other (omega arith)
]

module _ {B : Type 0} (ops : Backend B) (decode : ℕ → Register) (version_1 : ℕ)
    (writable : ℕ → Bool) (n : ℕ) where
  abbrev Off : Threads B → Type 0
  Off t = t.machine.should_run ≡ false

  -- What a move does to a stopped machine and to the exits left to processor `i`.
  abbrev Paid : ℕ → Move → Threads B → Threads B → Type 0
  Paid i a t t' = Off t' × (exits_left (t'.cpus i) + exit_count i a ≤ exits_left (t.cpus i))

  start-Paid :
      (t t' : Threads B) (i : ℕ) (m : Main)
      → Off t
      → MainStep ops decode version_1 writable n t m t'
      → Paid i main_moves t t'
  unfolding stop
  start-Paid t _ i _ off (first_joined at) = (off, omega arith)
  start-Paid t _ i _ off stopped = (refl, omega arith)
  start-Paid t _ i _ off (joined j more at) = (off, omega arith)
  start-Paid t _ i _ off (all_joined j no_more) = (off, omega arith)
  start-Paid t _ i _ off ended = (off, omega arith)
  start-Paid t _ i _ off (terminal_joined at) = (off, omega arith)

  move-Paid :
      (t t' : Threads B) (i : ℕ) (a : Move)
      → Off t
      → Moved ops decode version_1 writable n t a t'
      → Paid i a t t'
  move-Paid t t' i _ off (by_main _ st) = start-Paid t t' i t.main off st
  move-Paid t _ i _ off (tested j at) = (off, rw off (omega (arith, set_at-tests t.cpus i j)))
  move-Paid t _ i _ off (left j e m next at taken) = (
    handle_exit-running ops decode version_1 writable e t.machine m next taken ∙ off,
    set_at-exits t.cpus i j next at,
  )
  move-Paid t _ i _ off (terminal_tested at) = (off, omega arith)
  move-Paid t _ i _ off (typed junk keys m at taken) = (
    read_terminal-running ops decode version_1 writable t.machine m junk keys taken ∙ off,
    omega arith,
  )
  move-Paid t _ i _ off (unreadable at) = (off, omega arith)

  -- Once the machine has been told to stop: over any further moves, in any order, a processor
  -- leaves the guest at most once more, if it is in the guest, and not at all if it is not.
  pub exits-bounded :
      (t t' : Threads B) (i : ℕ) (all : List Move)
      → t.machine.should_run ≡ false
      → moves ops decode version_1 writable n t all ≡ some t'
      → exits i all + exits_left (t'.cpus i) ≤ exits_left (t.cpus i)
  exits-bounded t t' i [] off h =
      rw (moves-nil ops decode version_1 writable n t t' h) (omega arith)
  exits-bounded t t' i (a ∷ rest) off h =
      let (next, first, later) = moves-cons ops decode version_1 writable n t t' a rest h in
      let (off', paid) = move-Paid t next i a off first in
      omega (arith, paid, exits-bounded next t' i rest off' later)
