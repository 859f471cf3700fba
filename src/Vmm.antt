-- ===== src/Vmm.antt =====
-- src/kvm/vmm.h: the threads of `vmm::start`: its own, one for each processor, and the one that
-- reads the terminal. Each thread is at a place in its code; a move of a thread takes it to the
-- next, and the moves of all threads come in any order. An exit is handled in one move, which the
-- code does without a lock. A thread that throws ends the program, and then there is no next
-- state.
pub mod View
pub mod Order
pub mod Stop
pub mod Input
pub mod Return
pub mod Machines
mod Tests
use kthxvm.Base.{
  ℕ, ◌+◌, Bool, true, false, Option, none, some, List, [], ◌∷◌, ◌==◌, ltb, if◌then◌else◌, Result,
  ok, err,
}
use kthxvm.Uart.{Key}
use kthxvm.Mmio.{Backend, Register}
use kthxvm.Machine.{Machine, Exit, Next, resume, leave, handle_exit}
use kthxvm.Machine.Start.{stop, read_terminal}

-- A thread with a loop: at the test of its condition, in the call that blocks (`run` of a
-- processor, `readable` of the terminal), or at its end.
pub data Place : Type 0 where
  at_test blocked finished : Place

-- `start` itself, from the first `join` on: it waits for processor 0, stops the others, waits for
-- the processor with this number, ends the loop over the terminal, waits for it, and has returned.
pub data Main : Type 0 where
  join_first stopping : Main
  joining : (cpu : ℕ) → Main
  ending join_terminal returned : Main

pub record Threads (B : Type 0) : Type 0 where
  pub machine : Machine B
  pub main : Main
  pub cpus : ℕ → Place
  pub terminal : Place
  pub run_terminal : Bool

-- The moves. What the call of a blocked thread returns comes with it: the reason of an exit, or
-- the input, `none` if the terminal is not readable.
pub data Move : Type 0 where
  main_moves : Move
  cpu_tests : (cpu : ℕ) → Move
  cpu_exits : (cpu : ℕ) → Exit → Move
  terminal_tests : Move
  terminal_polled : Option (ℕ × List Key) → Move

abbrev pub set_at : {A : Type 0} → ℕ → A → (ℕ → A) → ℕ → A
set_at i a f j = if j == i then a else f j

abbrev pub when_finished : {A : Type 0} → Place → A → Option A
when_finished at_test a = none
when_finished blocked a = none
when_finished finished a = some a

abbrev pub when_at_test : {A : Type 0} → Place → A → Option A
when_at_test at_test a = some a
when_at_test blocked a = none
when_at_test finished a = none

abbrev pub when_blocked : {A : Type 0} → Place → Option A → Option A
when_blocked at_test a = none
when_blocked blocked a = a
when_blocked finished a = none

abbrev pub and_then : {A C : Type 0} → Option A → (A → Option C) → Option C
and_then none k = none
and_then (some a) k = k a

abbrev pub place_after : Next → Place
place_after (resume buffer) = at_test
place_after (leave code) = finished

-- What becomes of a processor's exit, and of the terminal's input; a failure has no next state.
abbrev pub exited : {B : Type 0} → Threads B → ℕ → Result (Machine B × Next) → Option (Threads B)
exited t i (ok (m, next)) =
    some (record t { machine = m; cpus = set_at i (place_after next) t.cpus })
exited t i (err e) = none

abbrev pub typed_in : {B : Type 0} → Threads B → Result (Machine B) → Option (Threads B)
typed_in t (ok m) = some (record t { machine = m; terminal = at_test })
typed_in t (err e) = none

abbrev pub polled :
    {B : Type 0} → (ℕ → Bool) → Threads B → Option (ℕ × List Key) → Option (Threads B)
polled writable t none = some (record t { terminal = finished })
polled writable t (some (junk, keys)) = typed_in t (read_terminal writable t.machine junk keys)

-- `n` is `CPU_COUNT`.
module _ {B : Type 0} (ops : Backend B) (decode : ℕ → Register) (version_1 : ℕ)
    (writable : ℕ → Bool) (n : ℕ) where
  abbrev pub main_from : Threads B → Main → Option (Threads B)
  main_from t join_first = when_finished (t.cpus 0) (record t { main = stopping })
  main_from t stopping = some (record t { machine = stop t.machine; main = joining 1 })
  main_from t (joining i) =
      if ltb i n
      then when_finished (t.cpus i) (record t { main = joining (i + 1) })
      else some (record t { main = ending })
  main_from t ending = some (record t { run_terminal = false; main = join_terminal })
  main_from t join_terminal = when_finished t.terminal (record t { main = returned })
  main_from t returned = none

  unfoldable pub move : Threads B → Move → Option (Threads B)
  move t main_moves = main_from t t.main
  move t (cpu_tests i) =
      if ltb i n
      then when_at_test (t.cpus i)
          (record t { cpus = set_at i (if t.machine.should_run then blocked else finished) t.cpus })
      else none
  move t (cpu_exits i e) =
      if ltb i n
      then when_blocked (t.cpus i)
          (exited t i (handle_exit ops decode version_1 writable t.machine e))
      else none
  move t terminal_tests =
      when_at_test t.terminal (record t { terminal = if t.run_terminal then blocked else finished })
  move t (terminal_polled input) = when_blocked t.terminal (polled writable t input)

  -- The state after these moves, if each of them is possible.
  unfoldable pub moves : Threads B → List Move → Option (Threads B)
  moves t [] = some t
  moves t (a ∷ rest) = and_then (move t a) (λ t'. moves t' rest)

-- All threads have been started, on this machine.
abbrev pub threads_started : {B : Type 0} → Machine B → Threads B
threads_started m = record {
  machine = m;
  main = join_first;
  cpus = λ i. at_test;
  terminal = at_test;
  run_terminal = true;
}
