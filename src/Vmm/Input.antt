-- ===== src/Vmm/Input.antt =====
-- vmm.h, vcpu.h, terminal.h: `start` waits for every thread that it started, also for one whose
-- call does not return.
use kthxvm.Base.{
  ℕ, ◌<◌, ◌≡◌, ◌≢◌, refl, sym, ◌∙◌, ap, subst, Bool, true, false, not, ◌&&◌, Bool-cases, inl, inr,
  some, List, [], ◌∷◌, ◌==◌, arith,
}
use kthxvm.Mmio.{Backend, Register}
use kthxvm.Machine.{Machine}
use kthxvm.Vmm.{
  Place, at_test, blocked, finished, Main, returned, Threads, Move, main_moves, cpu_tests,
  cpu_exits, terminal_tests, terminal_polled, set_at, place_after, moves, threads_started,
}
use kthxvm.Vmm.View.{
  MainStep, first_joined, stopped, joined, all_joined, ended, terminal_joined, Moved, by_main,
  tested, left, terminal_tested, typed, unreadable, moves-cons, moves-nil,
}
use kthxvm.Vmm.Order.{Past, threads_started-Past, moves-Past, returned-Past}

-- The threads that `start` waits for.
pub data Waited : Type 0 where
  the_terminal : Waited
  processor : (cpu : ℕ) → Waited

abbrev pub place_of : {B : Type 0} → Threads B → Waited → Place
place_of t the_terminal = t.terminal
place_of t (processor i) = t.cpus i

-- The call in which the thread is blocked returns.
abbrev pub comes_back : Waited → Move → Bool
comes_back the_terminal (terminal_polled input) = true
comes_back the_terminal main_moves = false
comes_back the_terminal (cpu_tests i) = false
comes_back the_terminal (cpu_exits i e) = false
comes_back the_terminal terminal_tests = false
comes_back (processor i) (cpu_exits j e) = i == j
comes_back (processor i) main_moves = false
comes_back (processor i) (cpu_tests j) = false
comes_back (processor i) terminal_tests = false
comes_back (processor i) (terminal_polled input) = false

abbrev pub is_silent : Waited → List Move → Bool
is_silent w [] = true
is_silent w (a ∷ rest) = not (comes_back w a) && is_silent w rest

silent_parts : (a b : Bool) → (not a && b) ≡ true → (a ≡ false) × (b ≡ true)
silent_parts true b h = cc
silent_parts false b h = (refl, h)

elsewhere : (i j : ℕ) (p : Place) (f : ℕ → Place) → (i == j) ≡ false → set_at j p f i ≡ f i
elsewhere i j p f h = rw h refl

module _ {B : Type 0} (ops : Backend B) (decode : ℕ → Register) (version_1 : ℕ)
    (writable : ℕ → Bool) (n : ℕ) where
  -- `start` moves no other thread.
  start-place :
      (t t' : Threads B) (m : Main)
      → MainStep ops decode version_1 writable n t m t'
      → (t'.cpus ≡ t.cpus) × (t'.terminal ≡ t.terminal)
  start-place t _ _ (first_joined at) = (refl, refl)
  start-place t _ _ stopped = (refl, refl)
  start-place t _ _ (joined i more at) = (refl, refl)
  start-place t _ _ (all_joined i no_more) = (refl, refl)
  start-place t _ _ ended = (refl, refl)
  start-place t _ _ (terminal_joined at) = (refl, refl)

  move-blocked :
      (t t' : Threads B) (a : Move) (w : Waited)
      → Moved ops decode version_1 writable n t a t'
      → comes_back w a ≡ false
      → place_of t w ≡ blocked
      → place_of t' w ≡ blocked
  move-blocked t t' _ the_terminal (by_main _ st) quiet at = (start-place t t' t.main st).1 ∙ at
  move-blocked t t' _ (processor i) (by_main _ st) quiet at =
      ap (λ (f : ℕ → Place). f i) (start-place t t' t.main st).0 ∙ at
  move-blocked t _ _ the_terminal (tested j ready) quiet at = at
  move-blocked t _ _ (processor i) (tested j ready) quiet at = elim (Bool-cases (i == j)) [
    | inl same ↦
        let here : i ≡ j = ground arith in
        let both : blocked ≡ at_test = sym at ∙ ap t.cpus here ∙ ready in absurd (ground arith)
    | inr other ↦ elsewhere i j _ t.cpus other ∙ at
  ]
  move-blocked t _ _ the_terminal (left j e m next busy taken) quiet at = at
  move-blocked t _ _ (processor i) (left j e m next busy taken) quiet at =
      elsewhere i j (place_after next) t.cpus quiet ∙ at
  move-blocked t _ _ the_terminal (terminal_tested ready) quiet at = absurd (ground arith)
  move-blocked t _ _ (processor i) (terminal_tested ready) quiet at = at
  move-blocked t _ _ the_terminal (typed junk keys m busy taken) quiet at = cc
  move-blocked t _ _ (processor i) (typed junk keys m busy taken) quiet at = at
  move-blocked t _ _ the_terminal (unreadable busy) quiet at = cc
  move-blocked t _ _ (processor i) (unreadable busy) quiet at = at

  moves-blocked :
      (t t' : Threads B) (all : List Move) (w : Waited)
      → is_silent w all ≡ true
      → place_of t w ≡ blocked
      → moves ops decode version_1 writable n t all ≡ some t'
      → place_of t' w ≡ blocked
  moves-blocked t t' [] w quiet at h =
      subst (λ (x : Threads B). place_of x w ≡ blocked)
        (moves-nil ops decode version_1 writable n t t' h) at
  moves-blocked t t' (a ∷ rest) w quiet at h =
      let (next, first, later) = moves-cons ops decode version_1 writable n t t' a rest h in
      let (now, then_on) = silent_parts (comes_back w a) (is_silent w rest) quiet in
      moves-blocked next t' rest w then_on (move-blocked t next a w first now at) later

  -- A thread of the machine; the others do not exist.
  abbrev pub Exists : Waited → Type 0
  Exists the_terminal = Unit {0}
  Exists (processor i) = i < n

  at_its_end : (t : Threads B) (w : Waited) → Exists w → Past n t returned → place_of t w ≡ finished
  at_its_end t the_terminal there (off, read, done, last) = last
  at_its_end t (processor i) there (off, read, done, last) = done i there

  -- On a running machine whose threads have been started: from the moment that one of them, a
  -- processor or that of the terminal, is in its blocking call, and for as long as that call does
  -- not return, `start` does not return, whatever the other threads do.
  pub blocked-not_returned :
      (m : Machine B) (t t' : Threads B) (before after : List Move) (w : Waited)
      → Exists w
      → m.should_run ≡ true
      → moves ops decode version_1 writable n (threads_started m) before ≡ some t
      → place_of t w ≡ blocked
      → moves ops decode version_1 writable n t after ≡ some t'
      → is_silent w after ≡ true
      → t'.main ≢ returned
  blocked-not_returned m t t' before after w there run first at second quiet ret =
      let p = threads_started-Past ops decode version_1 writable n m t before run first in
      let p' = moves-Past ops decode version_1 writable n t t' after p second in
      let ended = at_its_end t' w there (returned-Past ops decode version_1 writable n t' ret p') in
      let still = moves-blocked t t' after w quiet at second in ground arith
