-- ===== src/Vmm/Return.antt =====
-- vmm.h: after the first `join`, `start` can come to its end without any thread ending by itself.
use kthxvm.Base.{
  ℕ, zero, suc, ◌+◌, ◌-◌, ◌<◌, ◌≡◌, ◌≢◌, refl, ◌∙◌, ap, Bool, true, false, Option, some, List, [],
  ◌∷◌, ◌++◌, ltb, arith,
}
use mathlib.Core.Option.{some-injective}
use kthxvm.Mmio.{Backend, Register}
use kthxvm.Machine.{Machine, intr}
use kthxvm.Machine.Start.{stop}
use kthxvm.Machine.Running.{handle_exit-intr}
use kthxvm.Vmm.View.{from_and_then}
use kthxvm.Vmm.{
  Place, at_test, blocked, finished, Main, join_first, stopping, joining, ending, join_terminal,
  returned, Threads, Move, main_moves, cpu_tests, cpu_exits, terminal_tests, terminal_polled,
  set_at, main_from, move, moves,
}

-- The move does not end a thread by itself: no guest halts, the only exit is the one of a call that
-- a signal interrupts, after which the code calls `run` again if it may, and the input does not
-- end.
abbrev pub Forced : Move → Type 0
Forced main_moves = Unit
Forced (cpu_tests i) = Unit
Forced (cpu_exits i e) = e ≡ intr
Forced terminal_tests = Unit
Forced (terminal_polled input) = ⊥

abbrev pub AllForced : List Move → Type 0
AllForced [] = Unit
AllForced (a ∷ rest) = Forced a × AllForced rest

AllForced-append : (xs ys : List Move) → AllForced xs → AllForced ys → AllForced (xs ++ ys)
AllForced-append [] ys f g = g
AllForced-append (x ∷ xs) ys (here, f) g = (here, AllForced-append xs ys f g)

module _ {B : Type 0} (ops : Backend B) (decode : ℕ → Register) (version_1 : ℕ)
    (writable : ℕ → Bool) (n : ℕ) where
  abbrev run : Threads B → List Move → Option (Threads B)
  run = moves ops decode version_1 writable n

  -- Some moves take the threads to a state with `P`.
  record Leads (t : Threads B) (P : Threads B → Type 0) : Type 0 where
    by : List Move
    to : Threads B
    moved : run t by ≡ some to
    forced : AllForced by
    has : P to

  run-append :
      (t t' : Threads B) (xs ys : List Move) → run t xs ≡ some t' → run t (xs ++ ys) ≡ run t' ys
  unfolding moves
  run-append t t' [] ys h = ap (λ (x : Threads B). run x ys) (some-injective t t' h)
  run-append t t' (x ∷ xs) ys h =
      let (next, first, later) =
        from_and_then (move ops decode version_1 writable n t x) (λ x'. run x' xs) t' h in
      rw first (run-append next t' xs ys later)

  stays : (t : Threads B) (P : Threads B → Type 0) → P t → Leads t P
  unfolding moves
  stays t P h = record { by = []; to = t; moved = refl; forced = tt; has = h }

  then_leads :
      (t : Threads B) (P Q : Threads B → Type 0)
      → Leads t P
      → ((x : Threads B) → P x → Leads x Q)
      → Leads t Q
  then_leads t P Q l k =
      let m = k l.to l.has in
      record {
        by = l.by ++ m.by;
        to = m.to;
        moved = run-append t l.to l.by m.by l.moved ∙ m.moved;
        forced = AllForced-append l.by m.by l.forced m.forced;
        has = m.has;
      }

  one :
      (t t' : Threads B) (P : Threads B → Type 0) (a : Move)
      → move ops decode version_1 writable n t a ≡ some t'
      → Forced a
      → P t'
      → Leads t P
  unfolding moves
  one t t' P a h f p = record { by = a ∷ []; to = t'; moved = rw h refl; forced = (f, tt); has = p }

  stopped : (m : Machine B) → (stop m).should_run ≡ false
  unfolding stop
  stopped m = refl

  -- The machine is stopped, `start` is at this place, and the terminal's thread is not in its call.
  abbrev StoppedAt : Main → Threads B → Type 0
  StoppedAt m t = (t.machine.should_run ≡ false) × (t.main ≡ m) × (t.terminal ≢ blocked)

  end_cpu :
      (t : Threads B) (m : Main) (i : ℕ) (p : Place)
      → i < n
      → t.cpus i ≡ p
      → StoppedAt m t
      → Leads t (λ x. StoppedAt m x × (x.cpus i ≡ finished))
  unfolding move
  end_cpu t m i at_test below at s =
      let less : ltb i n ≡ true = ground arith in
      one t (record t { cpus = set_at i finished t.cpus }) _ (cpu_tests i) (rw (less, at, s.0) refl)
        tt (s, ground arith)
  end_cpu t m i blocked below at s =
      let less : ltb i n ≡ true = ground arith in
      let back : Threads B = record t { cpus = set_at i at_test t.cpus } in
      let here : back.cpus i ≡ at_test = ground arith in
      then_leads t (λ x. StoppedAt m x × (x.cpus i ≡ at_test)) _
        (one t back _ (cpu_exits i intr)
          (rw (less, at, handle_exit-intr ops decode version_1 writable t.machine) refl) refl
          (s, here))
        (λ x (s', there).
          one x (record x { cpus = set_at i finished x.cpus }) _ (cpu_tests i)
            (rw (less, there, s'.0) refl) tt (s', ground arith))
  end_cpu t m i finished below at s = stays t _ (s, at)

  -- A move of `start` itself.
  starts :
      (t t' : Threads B) (m : Main) (P : Threads B → Type 0)
      → t.main ≡ m
      → main_from ops decode version_1 writable n t m ≡ some t'
      → P t'
      → Leads t P
  unfolding move
  starts t t' m P here h p =
      one t t' P main_moves (ap (main_from ops decode version_1 writable n t) here ∙ h) tt p

  -- The `k` processors from `i` on are waited for.
  join_rest :
      (k i : ℕ) (t : Threads B) → i + k ≡ n → StoppedAt (joining i) t → Leads t (StoppedAt ending)
  join_rest zero i t all (off, here, free) =
      let no_more : ltb i n ≡ false = ground arith in
      starts t (record t { main = ending }) (joining i) _ here (rw no_more refl) (off, refl, free)
  join_rest (suc k) i t all s =
      let more : ltb i n ≡ true = ground arith in
      then_leads t _ _ (end_cpu t (joining i) i (t.cpus i) (omega arith) refl s) (λ x (s', at).
        then_leads x (StoppedAt (joining (i + 1))) _
          (starts x (record x { main = joining (i + 1) }) (joining i) _ s'.1 (rw (more, at) refl)
            (s'.0, refl, s'.2))
          (λ y s''. join_rest k (i + 1) y (omega arith) s''))

  end_terminal :
      (t : Threads B) (p : Place)
      → t.terminal ≡ p
      → p ≢ blocked
      → t.run_terminal ≡ false
      → t.main ≡ join_terminal
      → Leads t (λ x. (x.terminal ≡ finished) × (x.main ≡ join_terminal))
  unfolding move
  end_terminal t at_test at free off here =
      one t (record t { terminal = finished }) _ terminal_tests (rw (at, off) refl) tt (refl, here)
  end_terminal t blocked at free off here = absurd (free refl)
  end_terminal t finished at free off here = stays t _ (at, here)

  ends : (t : Threads B) → StoppedAt ending t → Leads t (λ x. x.main ≡ returned)
  ends t (off, here, free) =
      then_leads t
        (λ x. (x.run_terminal ≡ false) × (x.main ≡ join_terminal) × (x.terminal ≢ blocked)) _
        (starts t (record t { run_terminal = false; main = join_terminal }) ending _ here refl
          (refl, refl, free))
        (λ x (quiet, there, free').
          then_leads x _ _ (end_terminal x x.terminal refl free' quiet there) (λ y (last, wait).
            starts y (record y { main = returned }) join_terminal _ wait (rw last refl) refl))

  -- With at least one processor: when processor 0 is at its end, `start` waits for it, and the
  -- terminal's thread is not in its call, there are moves that take `start` to its return,
  -- wherever the other processors are, and in which no thread ends by itself: no guest halts, a
  -- processor in the guest only has its call of `run` interrupted, which it would call again, and
  -- nothing happens to the input. So it is `start` that ends the other threads.
  pub can_return :
      (t : Threads B)
      → 0 < n
      → t.main ≡ join_first
      → t.cpus 0 ≡ finished
      → t.terminal ≢ blocked
      → (all : List Move) × (t' : Threads B) × AllForced all
        × (moves ops decode version_1 writable n t all ≡ some t')
        × (t'.main ≡ returned)
  can_return t pos here first free =
      let l : Leads t (λ x. x.main ≡ returned) =
        then_leads t (λ x. (x.main ≡ stopping) × (x.terminal ≢ blocked)) _
          (starts t (record t { main = stopping }) join_first _ here (rw first refl) (refl, free))
          (λ x (at, free').
            then_leads x (StoppedAt (joining 1)) _
              (starts x (record x { machine = stop x.machine; main = joining 1 }) stopping _ at refl
                (stopped x.machine, refl, free'))
              (λ y s.
                then_leads y (StoppedAt ending) _ (join_rest (n - 1) 1 y (omega arith) s) ends)) in
      (l.by, l.to, l.forced, l.moved, l.has)
