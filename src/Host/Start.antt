-- ===== src/Host/Start.antt =====
-- vmm.h: `vmm`, with its constructor and `start` up to the point where all threads run; the
-- constructors of virtio/blk.h, rng.h and net.h, and `register_irq` of vm.h.
use kthxvm.Base.{
  ℕ, zero, suc, ◌+◌, ◌*◌, ◌^◌, Bool, false, ◌||◌, List, [], ◌∷◌, Option, Result, ◌==◌,
  if◌then◌else◌,
}
use kthxvm.Memory.{Memory}
use kthxvm.Cpu as Cpu
use kthxvm.Cpuid as Cpuid
use kthxvm.LongMode.{Sregs, setup_long_mode}
use kthxvm.Ram.{memory_size}
use kthxvm.Ram.Boot.{Layout, zero_page_start, setup_bootparams}
use kthxvm.Routing as Routing
use kthxvm.Mptable.{setup_mptable}
use kthxvm.Host.{
  Call, Calls, Host, ◌>>=◌, ◌>>◌, pure, lift, checked, ignored, get_supported_cpuid,
  set_gsi_routing, eventfd, irqfd, get_lapic, get_sregs, set_cpuid2, set_msrs, set_fpu, set_lapic,
  set_regs, set_sregs, open_disk, open_random, open_tun, tun_set_iff, tun_set_offload,
  tun_set_header, run_script, start_blk, start_net_tx, start_net_rx, start_terminal, start_cpu,
}
use kthxvm.Host.Setup.{new_kvm, new_terminal, new_vm}

-- What the kernel fills in: the supported identification, and a processor's local interrupt
-- controller and special registers.
pub record Kernel : Type 0 where
  pub cpuid : List Cpuid.Entry
  pub lapic : ℕ → Memory
  pub sregs : ℕ → Sregs

abbrev pub cpu_count : ℕ
cpu_count = 2

abbrev pub memory_bytes : ℕ
memory_bytes = 4 * 1024 * 2 ^ 20

abbrev pub boot_stack_pointer : ℕ
boot_stack_pointer = 0x8ff0

-- The cells of `interrupts` that are not null, by their numbers.
abbrev pub is_registered : List ℕ → ℕ → Bool
is_registered [] n = false
is_registered (k ∷ ks) n = k == n || is_registered ks n

module _ (answers : Calls → Call → Option ℕ) where
  -- The eventfd is not checked.
  unfoldable pub register_irq : List ℕ → ℕ → Host (List ℕ)
  register_irq ns n =
      if is_registered ns n
      then pure ns
      else (do ignored answers (eventfd n); checked answers (irqfd n); pure (n ∷ ns))

  -- The members of the devices that are not calls are those of Machine.Start.
  unfoldable pub new_blk : Host (Unit {0})
  new_blk = do checked answers open_disk; checked answers start_blk

  unfoldable pub create_tap : Host (Unit {0})
  create_tap = do
    ignored answers open_tun
    checked answers tun_set_iff
    checked answers tun_set_offload
    checked answers tun_set_header
    checked answers run_script

  unfoldable pub new_net : Host (Unit {0})
  new_net = do create_tap; checked answers start_net_tx; checked answers start_net_rx

  unfoldable pub add_devices : Host (List ℕ)
  add_devices = do
    l1 ← register_irq [] 1
    l2 ← register_irq l1 4
    l3 ← register_irq l2 3
    l4 ← register_irq l3 4
    l5 ← register_irq l4 3
    l6 ← register_irq l5 12
    new_blk
    l7 ← register_irq l6 13
    checked answers open_random
    l8 ← register_irq l7 14
    new_net
    pure l8

  unfoldable pub set_cpuids : List Cpuid.Entry → ℕ → ℕ → Host (Unit {0})
  set_cpuids entries zero i = pure tt
  set_cpuids entries (suc n) i = do
    checked answers (set_cpuid2 i entries)
    set_cpuids entries n (i + 1)

  unfoldable pub setup_cpus : Kernel → ℕ → ℕ → Host (Unit {0})
  setup_cpus k zero i = pure tt
  setup_cpus k (suc n) i = do
    checked answers (set_msrs i Cpu.setup_msrs)
    checked answers (set_fpu i Cpu.setup_fpu)
    checked answers (get_lapic i)
    checked answers (set_lapic i (Cpu.setup_lapic (k.lapic i)))
    setup_cpus k n (i + 1)

  unfoldable pub start_cpus : ℕ → ℕ → Host (Unit {0})
  start_cpus zero i = pure tt
  start_cpus (suc n) i = do checked answers (start_cpu i); start_cpus n (i + 1)

  -- `start`, with the memory that the guest begins with; `loaded` is what `elf::load` makes of the
  -- kernel's file.
  unfoldable pub start : Kernel → Layout → List ℕ → Result (ℕ × Memory) → Host Memory
  start k l cmdline loaded = do
    checked answers get_supported_cpuid
    set_cpuids (Cpuid.filter_cpuid_copy k.cpuid) cpu_count 0
    (entry, m) ← lift loaded
    checked answers (set_gsi_routing Routing.setup_irq_routing)
    setup_cpus k cpu_count 0
    checked answers (set_regs 0 (Cpu.setup_regs entry boot_stack_pointer zero_page_start))
    checked answers (get_sregs 0)
    let long_mode = setup_long_mode m (k.sregs 0)
    checked answers (set_sregs 0 long_mode.1)
    let boot = setup_bootparams l long_mode.0 cmdline (memory_size memory_bytes)
    let table = setup_mptable boot cpu_count
    ns ← add_devices
    start_cpus cpu_count 0
    checked answers start_terminal
    pure table

  -- The constructor of `vmm`, and `start`.
  unfoldable pub main : ℕ → Kernel → Layout → List ℕ → Result (ℕ × Memory) → Host Memory
  main version k l cmdline loaded = do
    new_kvm answers version
    new_terminal answers version
    new_vm answers version cpu_count memory_bytes
    start k l cmdline loaded
