-- ===== src/Machine/Tests.antt =====
-- vm.h and vmm.h on the machine of `start`, with devices of the class `Bool`.
use kthxvm.Base.{
  ℕ, ◌+◌, ◌≡◌, refl, Bool, true, false, some, List, [], ◌∷◌, map, length-replicate, replicate,
  if◌then◌else◌, ok,
}
use kthxvm.Base.{◌==◌, inl, arith}
use kthxvm.Memory.{Memory, load, read_bytes}
use kthxvm.Queue.{used_slot, Queue, descriptor, used_idx}
use kthxvm.Config.{Config}
use kthxvm.Interrupt.Lines.{Lines, line}
use kthxvm.Mmio.Bus.{bus_update}
use kthxvm.Blk.Members as BlkMembers
use kthxvm.Net.Members as NetMembers
use kthxvm.Machine.Virtio.{Class, rng, members}
use kthxvm.Machine.Entropy.{slots, with_queue, bus_update-random}
use kthxvm.Interrupt
use kthxvm.Interrupt.{Interrupt}
use kthxvm.Uart
use kthxvm.Uart.{Uart, is_loop}
use kthxvm.Mmio.{Device, Backend, Register, unhandled}
use kthxvm.Machine.{serial, IoSlot, Machine, IoExit, io, io_out, resume, handle_exit, io_access}
use kthxvm.Machine.Start.{stop}
use kthxvm.Machine.Ports.{started, add_devices-started, accessed_at, io_access-port_device}
use kthxvm.Machine.Kept.{AllValid, fixed, start_fixed}
use kthxvm.Machine.Steps.{Reach, here, step, stops, Reach-add_devices}
use kthxvm.Machine.Console.{handle_exit-console}

abbrev ops : Backend Bool
ops = record {
  device_id = λ b. 4;
  features = λ b. 0;
  config_generation = λ b. 0;
  read = λ b offset size. ok [];
  write = λ b bytes offset size. ok b;
  update = λ index qs b m. ok (record { queues = qs; backend = b; memory = m; effects = [] });
}

abbrev device : Device Bool
device = record {
  driver_features = 0;
  queue_index = 0;
  device_feature_sel = false;
  driver_feature_sel = false;
  status = 0;
  queues = [];
  backend = true;
}

abbrev decode : ℕ → Register
decode n = unhandled

abbrev cells : ℕ → ℕ → List ℕ
cells n i = replicate n i

abbrev machine : Machine Bool
machine = started (λ n. n + 10) cells device device device (λ a. 0)

abbrev writes_byte : ℕ → IoExit
writes_byte port = record {
  direction = io_out;
  port = port;
  size = 1;
  count = 1;
  buffer = 72 ∷ [];
  junk = 0;
}

stopped : Reach ops decode 32 (λ fd. true) machine (stop machine)
stopped = step here (stops refl)

io_access-port_device_example :
    io_access (λ fd. true) machine.lines machine.io_devices (writes_byte 0x2f9)
    ≡ accessed_at (λ fd. true) machine.lines machine.io_devices (writes_byte 0x2f9) (some 2)
io_access-port_device_example =
    io_access-port_device (λ fd. true) machine.lines machine.io_devices (writes_byte 0x2f9) refl

abbrev tty : Uart
tty = Uart.init true (cells 64 1) (cells 64 9)

abbrev console : IoSlot
console = record { range = record { addr = 0x3f8; width = 8 }; device = serial tty; irq = 4 }

started_valid : AllValid machine.io_devices × (map fixed machine.io_devices ≡ start_fixed)
started_valid =
    Reach-add_devices ops decode 32 (λ fd. true) (λ n. n + 10) cells device device device (λ a. 0)
      machine machine (λ n i. length-replicate n i)
      (add_devices-started (λ n. n + 10) cells device device device (λ a. 0)) here

handle_exit-console_example :
    (m' : Machine Bool) × (handle_exit ops decode 32 (λ fd. true) machine (io (writes_byte 0x3f8))
      ≡ ok (m', resume (72 ∷ [])))
    × (m'.terminal ≡ (if is_loop tty then [] else 72 ∷ []))
handle_exit-console_example =
    handle_exit-console ops decode 32 (λ fd. true) machine (writes_byte 0x3f8) console tty
      (Interrupt.init 4 14) 72 [] started_valid.0 started_valid.1 refl refl refl refl refl refl refl

-- A queue whose first buffer, at descriptor 0, has four bytes at 0x500000.
abbrev queue : ℕ → Queue
queue last_avail = record {
  size = 4;
  desc_addr = 0x1000;
  avail_addr = 0x200000;
  used_addr = 0x300000;
  notify = 0;
  last_avail = last_avail;
  ready = true;
}

abbrev memory : Memory
memory a = if a == 0x1002 then 0x50 else if a == 0x1008 then 4 else if a == 0x200002 then 1 else 0

abbrev lines : Lines
lines = replicate 32 (some (Interrupt.init 0 9))

abbrev blank : Config
blank = record { bytes = []; generation = 0 }

abbrev bits : BlkMembers.Bits
bits = record { id = 2; size_max = 1; seg_max = 2; event_idx = 29 }

abbrev net_bits : NetMembers.Bits
net_bits = record {
  id = 1;
  mac = 5;
  csum = 0;
  host_tso4 = 11;
  guest_tso4 = 7;
  host_tso6 = 12;
  guest_tso6 = 8;
  host_ufo = 14;
  guest_ufo = 10;
}

abbrev member : Device Class
member = record {
  driver_features = 0;
  queue_index = 0;
  device_feature_sel = false;
  driver_feature_sel = false;
  status = 0;
  queues = [];
  backend = rng;
}

bus_update-random_example :
    (lines' : Lines) × (l : Interrupt) × (m' : Memory) × (bus_update
        (members bits net_bits (λ n. replicate n 9) 4)
        decode
        32
        (λ fd. true)
        lines
        (slots member blank (with_queue member (queue 0)) member blank)
        memory
      ≡ ok (lines', slots member blank (with_queue member (queue 1)) member blank, m'))
    × (line lines' 13 ≡ ok l)
    × (l.state ≡ true)
    × (read_bytes m' 0x500000 4 ≡ 9 ∷ 9 ∷ 9 ∷ 9 ∷ [])
    × (load 4 m' (used_slot (queue 0) 0) ≡ 0)
    × (load 4 m' (used_slot (queue 0) 0 + 4) ≡ 4)
    × (used_idx (queue 0) m' ≡ 1)
unfolding load descriptor line
bus_update-random_example =
    bus_update-random bits net_bits (λ n. replicate n 9) 4 decode 32 (λ fd. true) lines member
      member member blank blank (queue 0) memory (Interrupt.init 0 9) (Interrupt.init 0 9)
      (Interrupt.init 0 9) refl refl refl refl (λ n. length-replicate n 9) refl (omega arith)
      (omega arith) (inl (omega arith)) (inl (omega arith))
