-- ===== src/Vmm/Order.antt =====
-- vmm.h: in which order the threads of `start` come to their ends.
use kthxvm.Base.{
  ℕ, ◌+◌, ◌<◌, ◌≡◌, ◌≢◌, refl, sym, ◌∙◌, ap, subst, Bool, true, false, some, Bool-cases, inl, inr,
  List, [], ◌∷◌, ◌==◌, arith,
}
use kthxvm.Mmio.{Backend, Register}
use kthxvm.Machine.{Machine}
use kthxvm.Machine.Start.{stop}
use kthxvm.Machine.Running.{handle_exit-running, read_terminal-running}
use kthxvm.Vmm.View.{
  MainStep, first_joined, stopped, joined, all_joined, ended, terminal_joined, Moved, by_main,
  tested, left, terminal_tested, typed, unreadable, moves-cons, moves-nil,
}
use kthxvm.Vmm.{
  Place, at_test, finished, Main, join_first, stopping, joining, ending, join_terminal, returned,
  Threads, Move, main_moves, cpu_tests, cpu_exits, terminal_tests, terminal_polled, set_at,
  place_after, moves, threads_started,
}

set_at-finished :
    (i : ℕ) (p : Place) (f : ℕ → Place) (j : ℕ)
    → ¬ (f i ≡ finished)
    → f j ≡ finished
    → set_at i p f j ≡ finished
set_at-finished i p f j busy h = elim (Bool-cases (j == i)) [
  | inl same ↦ let here : j ≡ i = ground arith in absurd (busy (sym (ap f here) ∙ h))
  | inr other ↦ rw other h
]

module _ {B : Type 0} where
  abbrev pub AllDone : Threads B → ℕ → Type 0
  AllDone t n = (i : ℕ) → i < n → t.cpus i ≡ finished

  -- What has happened when `start` has come to each place.
  abbrev pub Past : ℕ → Threads B → Main → Type 0
  Past n t join_first = (t.machine.should_run ≡ true) × (t.run_terminal ≡ true)
  Past n t stopping = (t.machine.should_run ≡ true) × (t.run_terminal ≡ true) × AllDone t 1
  Past n t (joining i) =
      (t.machine.should_run ≡ false) × (t.run_terminal ≡ true) × (0 < i) × AllDone t i
  Past n t ending = (t.machine.should_run ≡ false) × (t.run_terminal ≡ true) × AllDone t n
  Past n t join_terminal = (t.machine.should_run ≡ false) × (t.run_terminal ≡ false) × AllDone t n
  Past n t returned =
      (t.machine.should_run ≡ false)
      × (t.run_terminal ≡ false)
      × AllDone t n
      × (t.terminal ≡ finished)

  -- A move of another thread keeps the flags, and what was finished.
  pub record Keeps (t t' : Threads B) : Type 0 where
    pub main : t'.main ≡ t.main
    pub running : t'.machine.should_run ≡ t.machine.should_run
    pub reading : t'.run_terminal ≡ t.run_terminal
    pub cpus : (i : ℕ) → t.cpus i ≡ finished → t'.cpus i ≡ finished
    pub terminal : t.terminal ≡ finished → t'.terminal ≡ finished

  Past-Keeps : (n : ℕ) (t t' : Threads B) (m : Main) → Keeps t t' → Past n t m → Past n t' m
  Past-Keeps n t t' join_first k (a, b) = (k.running ∙ a, k.reading ∙ b)
  Past-Keeps n t t' stopping k (a, b, c) = (k.running ∙ a, k.reading ∙ b, λ i h. k.cpus i (c i h))
  Past-Keeps n t t' (joining j) k (a, b, p, c) =
      (k.running ∙ a, k.reading ∙ b, p, λ i h. k.cpus i (c i h))
  Past-Keeps n t t' ending k (a, b, c) = (k.running ∙ a, k.reading ∙ b, λ i h. k.cpus i (c i h))
  Past-Keeps n t t' join_terminal k (a, b, c) =
      (k.running ∙ a, k.reading ∙ b, λ i h. k.cpus i (c i h))
  Past-Keeps n t t' returned k (a, b, c, d) =
      (k.running ∙ a, k.reading ∙ b, λ i h. k.cpus i (c i h), k.terminal d)

  -- A processor that is not at its end goes on.
  cpu-Keeps :
      (t : Threads B) (m : Machine B) (i : ℕ) (p : Place)
      → ¬ (t.cpus i ≡ finished)
      → m.should_run ≡ t.machine.should_run
      → Keeps t (record t { machine = m; cpus = set_at i p t.cpus })
  cpu-Keeps t m i p busy same = record {
    main = refl;
    running = same;
    reading = refl;
    cpus = λ j h. set_at-finished i p t.cpus j busy h;
    terminal = λ h. h;
  }

  terminal-Keeps :
      (t : Threads B) (m : Machine B) (p : Place)
      → ¬ (t.terminal ≡ finished)
      → m.should_run ≡ t.machine.should_run
      → Keeps t (record t { machine = m; terminal = p })
  terminal-Keeps t m p busy same = record {
    main = refl;
    running = same;
    reading = refl;
    cpus = λ j h. h;
    terminal = λ h. absurd (busy h);
  }

module _ {B : Type 0} (ops : Backend B) (decode : ℕ → Register) (version_1 : ℕ)
    (writable : ℕ → Bool) (n : ℕ) where
  abbrev pub Went : Threads B → Move → Threads B → Type 0
  Went t a t' = Moved ops decode version_1 writable n t a t'

  -- Each move of a thread other than that of `start`.
  pub others-Keeps : (t t' : Threads B) (a : Move) → a ≢ main_moves → Went t a t' → Keeps t t'
  others-Keeps t t' _ other (by_main _ st) = absurd (other refl)
  others-Keeps t _ _ other (tested i at) = cpu-Keeps t t.machine i _ (λ d. ground arith) refl
  others-Keeps t _ _ other (left i e m next at taken) =
      cpu-Keeps t m i (place_after next) (λ d. ground arith)
        (handle_exit-running ops decode version_1 writable e t.machine m next taken)
  others-Keeps t _ _ other (terminal_tested at) =
      terminal-Keeps t t.machine _ (λ d. ground arith) refl
  others-Keeps t _ _ other (typed junk keys m at taken) =
      terminal-Keeps t m at_test (λ d. ground arith)
        (read_terminal-running ops decode version_1 writable t.machine m junk keys taken)
  others-Keeps t _ _ other (unreadable at) =
      terminal-Keeps t t.machine finished (λ d. ground arith) refl

  AllDone-suc : (t : Threads B) (i : ℕ) → AllDone t i → t.cpus i ≡ finished → AllDone t (i + 1)
  AllDone-suc t i all last j h = elim (Bool-cases (j == i)) [
    | inl same ↦ let here : i ≡ j = ground arith in subst (λ (k : ℕ). t.cpus k ≡ finished) here last
    | inr other ↦ all j (ground arith)
  ]

  abbrev pub PastNow : Threads B → Type 0
  PastNow t = Past n t t.main

  start-Past :
      (t t' : Threads B) (m : Main)
      → MainStep ops decode version_1 writable n t m t'
      → Past n t m
      → PastNow t'
  unfolding stop
  start-Past t _ _ (first_joined at) (run, read) =
      (run, read, AllDone-suc t 0 (λ i none_below. absurd (omega arith)) at)
  start-Past t _ _ stopped (run, read, all) = (refl, read, omega arith, all)
  start-Past t _ _ (joined i more last) (run, read, some_done, all) =
      (run, read, omega arith, AllDone-suc t i all last)
  start-Past t _ _ (all_joined i no_more) (run, read, some_done, all) =
      (run, read, λ j below. all j (ground arith))
  start-Past t _ _ ended (run, read, all) = (run, refl, all)
  start-Past t _ _ (terminal_joined at) (run, read, all) = (run, read, all, at)

  kept : (t t' : Threads B) (a : Move) → a ≢ main_moves → PastNow t → Went t a t' → PastNow t'
  kept t t' a other past h =
      let k = others-Keeps t t' a other h in
      subst (Past n t') (sym k.main) (Past-Keeps n t t' t.main k past)

  move-Past : (t t' : Threads B) (a : Move) → PastNow t → Went t a t' → PastNow t'
  move-Past t t' main_moves past (by_main _ st) = start-Past t t' t.main st past
  move-Past t t' (cpu_tests i) past h = kept t t' (cpu_tests i) (λ e. cc) past h
  move-Past t t' (cpu_exits i e) past h = kept t t' (cpu_exits i e) (λ e. cc) past h
  move-Past t t' terminal_tests past h = kept t t' terminal_tests (λ e. cc) past h
  move-Past t t' (terminal_polled input) past h = kept t t' (terminal_polled input) (λ e. cc) past h

  pub moves-Past :
      (t t' : Threads B) (all : List Move)
      → PastNow t
      → moves ops decode version_1 writable n t all ≡ some t'
      → PastNow t'
  moves-Past t t' [] past h = subst PastNow (moves-nil ops decode version_1 writable n t t' h) past
  moves-Past t t' (a ∷ rest) past h =
      let (next, first, later) = moves-cons ops decode version_1 writable n t t' a rest h in
      moves-Past next t' rest (move-Past t next a past first) later

  -- From the start of all threads, after any moves in any order: what `Past` says of the place that
  -- `start` has come to.
  pub threads_started-Past :
      (m : Machine B) (t : Threads B) (all : List Move)
      → m.should_run ≡ true
      → moves ops decode version_1 writable n (threads_started m) all ≡ some t
      → PastNow t
  threads_started-Past m t all run h = moves-Past (threads_started m) t all (run, refl) h

  pub returned-Past : (t : Threads B) → t.main ≡ returned → PastNow t → Past n t returned
  returned-Past t h past = subst (Past n t) h past

  zero_done :
      (t : Threads B) (m : Main)
      → 0 < n
      → Past n t m
      → t.machine.should_run ≡ false
      → t.cpus 0 ≡ finished
  zero_done t join_first pos (run, read) off = cc
  zero_done t stopping pos (run, read, all) off = all 0 (omega arith)
  zero_done t (joining i) pos (run, read, some_done, all) off = all 0 some_done
  zero_done t ending pos (run, read, all) off = all 0 pos
  zero_done t join_terminal pos (run, read, all) off = all 0 pos
  zero_done t returned pos (run, read, all, at) off = all 0 pos

  -- With at least one processor, all threads just started and the machine running: after any moves
  -- in any order, the processors have been told to stop only if processor 0 is at its end; and
  -- when `start` has returned, every processor and the terminal's thread are at their ends.
  pub moves-ends :
      (m : Machine B) (t : Threads B) (all : List Move)
      → 0 < n
      → m.should_run ≡ true
      → moves ops decode version_1 writable n (threads_started m) all ≡ some t
      → (t.machine.should_run ≡ false → t.cpus 0 ≡ finished)
        × (t.main ≡ returned → AllDone t n × (t.terminal ≡ finished))
  moves-ends m t all pos run h =
      let past = threads_started-Past m t all run h in
      (
        λ off. zero_done t t.main pos past off,
        λ ret. let (off, read, done, last) = returned-Past t ret past in (done, last),
      )
