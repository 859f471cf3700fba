-- ===== src/Vmm/View.antt =====
-- vmm.h: the moves of the threads as a step relation, with one constructor for each way that a move
-- can go.
use kthxvm.Base.{
  ℕ, ◌+◌, ◌≡◌, refl, subst, Bool, true, false, Option, none, some, List, [], ◌∷◌, ltb,
  if◌then◌else◌, Result, ok, err,
}
use mathlib.Core.Option.{some-injective}
use kthxvm.Uart.{Key}
use kthxvm.Mmio.{Backend, Register}
use kthxvm.Machine.{Machine, Exit, Next, handle_exit}
use kthxvm.Machine.Start.{stop, read_terminal}
use kthxvm.Vmm.{
  Place, at_test, blocked, finished, Main, join_first, stopping, joining, ending, join_terminal,
  returned, Threads, Move, main_moves, cpu_tests, cpu_exits, terminal_tests, terminal_polled,
  and_then, set_at, when_finished, when_at_test, when_blocked, place_after, main_from, exited,
  typed_in, move, moves,
}

module _ {B : Type 0} where
  from_if :
      (b : Bool) (a : Option (Threads B)) (t : Threads B)
      → (if b then a else none) ≡ some t
      → (b ≡ true) × (a ≡ some t)
  from_if true a t h = (refl, h)
  from_if false a t h = cc

  pub from_and_then :
      (o : Option (Threads B)) (k : Threads B → Option (Threads B)) (t : Threads B)
      → and_then o k ≡ some t
      → (a : Threads B) × (o ≡ some a) × (k a ≡ some t)
  from_and_then none k t h = cc
  from_and_then (some a) k t h = (a, refl, h)

  from_when_finished :
      (p : Place) (a t : Threads B) → when_finished p a ≡ some t → (p ≡ finished) × (a ≡ t)
  from_when_finished at_test a t h = cc
  from_when_finished blocked a t h = cc
  from_when_finished finished a t h = (refl, some-injective _ _ h)

  from_when_at_test :
      (p : Place) (a t : Threads B) → when_at_test p a ≡ some t → (p ≡ at_test) × (a ≡ t)
  from_when_at_test at_test a t h = (refl, some-injective _ _ h)
  from_when_at_test blocked a t h = cc
  from_when_at_test finished a t h = cc

  from_when_blocked :
      (p : Place) (a : Option (Threads B)) (t : Threads B)
      → when_blocked p a ≡ some t
      → (p ≡ blocked) × (a ≡ some t)
  from_when_blocked at_test a t h = cc
  from_when_blocked blocked a t h = (refl, h)
  from_when_blocked finished a t h = cc

module _ {B : Type 0} (ops : Backend B) (decode : ℕ → Register) (version_1 : ℕ)
    (writable : ℕ → Bool) (n : ℕ) where
  -- The moves of `start`.
  pub data MainStep (t : Threads B) : Main → Threads B → Type 0 where
    first_joined : t.cpus 0 ≡ finished → MainStep t join_first (record t { main = stopping })
    stopped : MainStep t stopping (record t { machine = stop t.machine; main = joining 1 })
    joined :
        (i : ℕ)
        → ltb i n ≡ true
        → t.cpus i ≡ finished
        → MainStep t (joining i) (record t { main = joining (i + 1) })
    all_joined : (i : ℕ) → ltb i n ≡ false → MainStep t (joining i) (record t { main = ending })
    ended : MainStep t ending (record t { run_terminal = false; main = join_terminal })
    terminal_joined :
        t.terminal ≡ finished → MainStep t join_terminal (record t { main = returned })

  pub data Moved (t : Threads B) : Move → Threads B → Type 0 where
    by_main : (t' : Threads B) → MainStep t t.main t' → Moved t main_moves t'
    tested :
        (i : ℕ)
        → t.cpus i ≡ at_test
        → Moved t (cpu_tests i) (record t {
          cpus = set_at i (if t.machine.should_run then blocked else finished) t.cpus;
        })
    left :
        (i : ℕ) (e : Exit) (m : Machine B) (next : Next)
        → t.cpus i ≡ blocked
        → handle_exit ops decode version_1 writable t.machine e ≡ ok (m, next)
        → Moved t
            (cpu_exits i e)
            (record t { machine = m; cpus = set_at i (place_after next) t.cpus })
    terminal_tested :
        t.terminal ≡ at_test
        → Moved t terminal_tests
            (record t { terminal = if t.run_terminal then blocked else finished })
    typed :
        (junk : ℕ) (keys : List Key) (m : Machine B)
        → t.terminal ≡ blocked
        → read_terminal writable t.machine junk keys ≡ ok m
        → Moved t
            (terminal_polled (some (junk, keys)))
            (record t { machine = m; terminal = at_test })
    unreadable :
        t.terminal ≡ blocked → Moved t (terminal_polled none) (record t { terminal = finished })

  joining-MainStep :
      (t t' : Threads B) (i : ℕ) (more : Bool)
      → ltb i n ≡ more
      → (if more
          then when_finished (t.cpus i) (record t { main = joining (i + 1) })
          else some (record t { main = ending }))
        ≡ some t'
      → MainStep t (joining i) t'
  joining-MainStep t t' i true at h =
      let (last, now) = from_when_finished (t.cpus i) _ t' h in
      subst (MainStep t (joining i)) now (joined i at last)
  joining-MainStep t t' i false at h =
      subst (MainStep t (joining i)) (some-injective _ t' h) (all_joined i at)

  main_from-MainStep :
      (t t' : Threads B) (m : Main)
      → main_from ops decode version_1 writable n t m ≡ some t'
      → MainStep t m t'
  main_from-MainStep t t' join_first h =
      let (at, now) = from_when_finished (t.cpus 0) _ t' h in
      subst (MainStep t join_first) now (first_joined at)
  main_from-MainStep t t' stopping h = subst (MainStep t stopping) (some-injective _ t' h) stopped
  main_from-MainStep t t' (joining i) h = joining-MainStep t t' i (ltb i n) refl h
  main_from-MainStep t t' ending h = subst (MainStep t ending) (some-injective _ t' h) ended
  main_from-MainStep t t' join_terminal h =
      let (at, now) = from_when_finished t.terminal _ t' h in
      subst (MainStep t join_terminal) now (terminal_joined at)
  main_from-MainStep t t' returned h = cc

  exited-Moved :
      (t t' : Threads B) (i : ℕ) (e : Exit) (r : Result (Machine B × Next))
      → t.cpus i ≡ blocked
      → handle_exit ops decode version_1 writable t.machine e ≡ r
      → exited t i r ≡ some t'
      → Moved t (cpu_exits i e) t'
  exited-Moved t t' i e (ok (m, next)) at taken h =
      subst (Moved t (cpu_exits i e)) (some-injective _ t' h) (left i e m next at taken)
  exited-Moved t t' i e (err e') at taken h = cc

  typed_in-Moved :
      (t t' : Threads B) (junk : ℕ) (keys : List Key) (r : Result (Machine B))
      → t.terminal ≡ blocked
      → read_terminal writable t.machine junk keys ≡ r
      → typed_in t r ≡ some t'
      → Moved t (terminal_polled (some (junk, keys))) t'
  typed_in-Moved t t' junk keys (ok m) at taken h =
      subst (Moved t (terminal_polled (some (junk, keys)))) (some-injective _ t' h)
        (typed junk keys m at taken)
  typed_in-Moved t t' junk keys (err e') at taken h = cc

  -- Every move that is possible goes one of these ways.
  pub move-Moved :
      (t t' : Threads B) (a : Move)
      → move ops decode version_1 writable n t a ≡ some t'
      → Moved t a t'
  unfolding move
  move-Moved t t' main_moves h = by_main t' (main_from-MainStep t t' t.main h)
  move-Moved t t' (cpu_tests i) h =
      let (at, now) = from_when_at_test (t.cpus i) _ t' (from_if (ltb i n) _ t' h).1 in
      subst (Moved t (cpu_tests i)) now (tested i at)
  move-Moved t t' (cpu_exits i e) h =
      let (at, now) = from_when_blocked (t.cpus i) _ t' (from_if (ltb i n) _ t' h).1 in
      exited-Moved t t' i e _ at refl now
  move-Moved t t' terminal_tests h =
      let (at, now) = from_when_at_test t.terminal _ t' h in
      subst (Moved t terminal_tests) now (terminal_tested at)
  move-Moved t t' (terminal_polled none) h =
      let (at, now) = from_when_blocked t.terminal _ t' h in
      subst (Moved t (terminal_polled none)) (some-injective _ t' now) (unreadable at)
  move-Moved t t' (terminal_polled (some (junk, keys))) h =
      let (at, now) = from_when_blocked t.terminal _ t' h in
      typed_in-Moved t t' junk keys _ at refl now

  -- One move after another.
  pub moves-cons :
      (t t' : Threads B) (a : Move) (rest : List Move)
      → moves ops decode version_1 writable n t (a ∷ rest) ≡ some t'
      → (next : Threads B) × Moved t a next
        × (moves ops decode version_1 writable n next rest ≡ some t')
  unfolding moves
  moves-cons t t' a rest h =
      let (next, first, later) = from_and_then (move ops decode version_1 writable n t a) _ t' h in
      (next, move-Moved t next a first, later)

  pub moves-nil : (t t' : Threads B) → moves ops decode version_1 writable n t [] ≡ some t' → t ≡ t'
  unfolding moves
  moves-nil t t' h = some-injective t t' h
