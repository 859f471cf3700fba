-- ===== src/Vmm/Tests.antt =====
-- The threads of vmm.h with two processors, on the machine of `start`.
use kthxvm.Base.{
  ℕ, ◌+◌, ◌≡◌, ◌≢◌, ◌≤◌, refl, Bool, true, false, some, List, [], ◌∷◌, ok, replicate,
  length-replicate, map, arith,
}
use kthxvm.Mmio.{Device, Backend, Register, unhandled}
use kthxvm.Machine.{Machine, hlt}
use kthxvm.Machine.Start.{stop}
use kthxvm.Machine.Ports.{started, add_devices-started}
use kthxvm.Machine.Running.{handle_exit-hlt}
use kthxvm.Machine.Kept.{AllValid, fixed, start_fixed}
use kthxvm.Machine.Steps.{Reach}
use kthxvm.Vmm.Machines.{moves-add_devices}
use kthxvm.Vmm.{
  Place, at_test, blocked, finished, joining, join_terminal, returned, Threads, Move, main_moves,
  cpu_tests, cpu_exits, terminal_tests, set_at, move, moves, threads_started,
}
use kthxvm.Vmm.Order.{AllDone, moves-ends}
use kthxvm.Vmm.Stop.{exits, exits_left, exits-bounded}
use kthxvm.Vmm.Input.{the_terminal, blocked-not_returned}
use kthxvm.Vmm.Return.{AllForced, can_return}

abbrev ops : Backend Bool
ops = record {
  device_id = λ b. 4;
  features = λ b. 0;
  config_generation = λ b. 0;
  read = λ b offset size. ok [];
  write = λ b bytes offset size. ok b;
  update = λ index qs b m. ok (record { queues = qs; backend = b; memory = m; effects = [] });
}

abbrev device : Device Bool
device = record {
  driver_features = 0;
  queue_index = 0;
  device_feature_sel = false;
  driver_feature_sel = false;
  status = 0;
  queues = [];
  backend = true;
}

abbrev decode : ℕ → Register
decode n = unhandled

abbrev machine : Machine Bool
machine = started (λ n. n + 10) (λ n i. replicate n i) device device device (λ a. 0)

abbrev writable : ℕ → Bool
writable fd = true

-- Processor 0 halts, `start` stops processor 1, and the terminal's thread ends.
abbrev whole_run : List Move
whole_run =
    cpu_tests 0
    ∷ cpu_exits 0 hlt
    ∷ main_moves
    ∷ main_moves
    ∷ cpu_tests 1
    ∷ main_moves
    ∷ main_moves
    ∷ main_moves
    ∷ terminal_tests
    ∷ main_moves
    ∷ []

abbrev halted : ℕ → Place
halted = set_at 0 finished (set_at 0 blocked (λ i. at_test))

abbrev at_end : Threads Bool
at_end = record {
  machine = stop machine;
  main = returned;
  cpus = set_at 1 finished halted;
  terminal = finished;
  run_terminal = false;
}

whole_run-at_end : moves ops decode 32 writable 2 (threads_started machine) whole_run ≡ some at_end
unfolding move moves stop
whole_run-at_end = rw (handle_exit-hlt ops decode 32 writable machine) refl

moves-ends_example :
    (at_end.machine.should_run ≡ false → at_end.cpus 0 ≡ finished)
    × (at_end.main ≡ returned → AllDone at_end 2 × (at_end.terminal ≡ finished))
moves-ends_example =
    moves-ends ops decode 32 writable 2 machine at_end whole_run (omega arith) refl whole_run-at_end

-- Processor 1 is in the guest when the machine is stopped, and halts.
abbrev waiting : Threads Bool
waiting = record {
  machine = stop machine;
  main = joining 1;
  cpus = set_at 1 blocked halted;
  terminal = at_test;
  run_terminal = true;
}

abbrev waited : Threads Bool
waited = record waiting { cpus = set_at 1 finished (set_at 1 blocked halted) }

waiting-waited : moves ops decode 32 writable 2 waiting (cpu_exits 1 hlt ∷ []) ≡ some waited
unfolding move moves
waiting-waited = rw (handle_exit-hlt ops decode 32 writable (stop machine)) refl

still_off : waiting.machine.should_run ≡ false
unfolding stop
still_off = refl

exits-bounded_example :
    exits 1 (cpu_exits 1 hlt ∷ []) + exits_left (waited.cpus 1) ≤ exits_left (waiting.cpus 1)
exits-bounded_example =
    exits-bounded ops decode 32 writable 2 waiting waited 1 (cpu_exits 1 hlt ∷ []) still_off
      waiting-waited

-- The terminal's thread waits for input, and processor 0 halts.
abbrev listening : Threads Bool
listening = record (threads_started machine) { terminal = blocked }

abbrev stuck : Threads Bool
stuck = record {
  machine = stop machine;
  main = join_terminal;
  cpus = set_at 1 finished halted;
  terminal = blocked;
  run_terminal = false;
}

abbrev without_input : List Move
without_input =
    cpu_tests 0
    ∷ cpu_exits 0 hlt
    ∷ main_moves
    ∷ main_moves
    ∷ cpu_tests 1
    ∷ main_moves
    ∷ main_moves
    ∷ main_moves
    ∷ []

listens :
    moves ops decode 32 writable 2 (threads_started machine) (terminal_tests ∷ []) ≡ some listening
unfolding move moves
listens = refl

without_input-stuck : moves ops decode 32 writable 2 listening without_input ≡ some stuck
unfolding move moves stop
without_input-stuck = rw (handle_exit-hlt ops decode 32 writable machine) refl

blocked-not_returned_example : stuck.main ≢ returned
blocked-not_returned_example =
    blocked-not_returned ops decode 32 writable 2 machine listening stuck (terminal_tests ∷ [])
      without_input the_terminal tt refl listens refl without_input-stuck refl

abbrev first_ended : Threads Bool
first_ended = record (threads_started machine) { cpus = halted }

-- Processor 1 is in the guest, and does not halt.
can_return_example :
    (all : List Move) × (t' : Threads Bool) × AllForced all
    × (moves ops decode 32 writable 2 first_ended all ≡ some t')
    × (t'.main ≡ returned)
can_return_example =
    can_return ops decode 32 writable 2 first_ended (omega arith) refl refl (λ e. cc e)

moves-add_devices_example :
    Reach ops decode 32 writable machine at_end.machine
    × AllValid at_end.machine.io_devices
    × (map fixed at_end.machine.io_devices ≡ start_fixed)
moves-add_devices_example =
    moves-add_devices ops decode 32 writable 2 (λ n. n + 10) (λ n i. replicate n i) device device
      device (λ a. 0) machine at_end whole_run (λ n i. length-replicate n i)
      (add_devices-started (λ n. n + 10) (λ n i. replicate n i) device device device (λ a. 0))
      whole_run-at_end
