-- ===== src/Host/Order.antt =====
-- `main` of main.cpp, the constructor of `vmm` and `vmm::start`: the order of all calls until the
-- threads run.
use kthxvm.Base.{ℕ, ◌≡◌, refl, subst, List, [], ◌∷◌, ◌++◌, Option, Result, ok, true, false}
use kthxvm.Memory.{Memory}
use kthxvm.Cpu as Cpu
use kthxvm.Cpuid as Cpuid
use kthxvm.LongMode.{setup_long_mode}
use kthxvm.Ram.{Region, memory_size}
use kthxvm.Ram.Boot.{Layout, zero_page_start, setup_bootparams}
use kthxvm.Ram.Map.{create_memory-two}
use kthxvm.Routing as Routing
use kthxvm.Mptable.{setup_mptable}
use kthxvm.Host.{
  Call, Calls, open_kvm, api_version, vcpu_mmap_size, create_vm, get_supported_cpuid, isatty,
  tcgetattr, tcsetattr, enable_x2apic, mmap_memory, madvise_memory, create_irqchip, create_pit,
  set_memory_region, set_tss_addr, set_gsi_routing, eventfd, irqfd, create_vcpu, mmap_run,
  get_lapic, get_sregs, set_cpuid2, set_msrs, set_fpu, set_lapic, set_regs, set_sregs, open_disk,
  open_random, open_tun, tun_set_iff, tun_set_offload, tun_set_header, run_script, start_blk,
  start_net_tx, start_net_rx, start_terminal, start_cpu,
}
use kthxvm.Host.Follows.{Follows, Follows-lift, after, check, done}
use kthxvm.Host.Start.{
  Kernel, register_irq, is_registered, add_devices, start, main, cpu_count, memory_bytes,
  boot_stack_pointer,
}
use kthxvm.Host.Setup.{new_vm}
use kthxvm.Host.Calls.{new_kvm-Follows}
use kthxvm.Host.Parts.{
  machine_calls, line_calls, new_terminal-Follows, new_vm-Follows, new_blk-Follows, new_net-Follows,
  set_cpuids-Follows, setup_cpus-Follows, start_cpus-Follows, register_irq-Follows-new,
  register_irq-Follows-again,
}

abbrev pub vm_calls : Calls
vm_calls =
    create_vm
    ∷ enable_x2apic
    ∷ mmap_memory
    ∷ madvise_memory
    ∷ set_memory_region (record { slot = 0; guest_addr = 0; size = 0xd0000000; host_offset = 0 })
    ∷ set_memory_region (record {
      slot = 1;
      guest_addr = 0x100000000;
      size = 0x30000000;
      host_offset = 0x100000000;
    })
    ∷ set_tss_addr 0xfffbd000
    ∷ create_irqchip
    ∷ create_pit
    ∷ vcpu_mmap_size
    ∷ create_vcpu 0
    ∷ mmap_run 0
    ∷ vcpu_mmap_size
    ∷ create_vcpu 1
    ∷ mmap_run 1
    ∷ []

abbrev pub construction_calls : Calls
construction_calls = open_kvm ∷ api_version ∷ isatty 0 ∷ isatty 1 ∷ tcgetattr ∷ tcsetattr ∷ vm_calls

-- Each interrupt line once, though two devices share the lines 3 and 4.
abbrev pub device_calls : Calls
device_calls =
    eventfd 1
    ∷ irqfd 1
    ∷ eventfd 4
    ∷ irqfd 4
    ∷ eventfd 3
    ∷ irqfd 3
    ∷ eventfd 12
    ∷ irqfd 12
    ∷ open_disk
    ∷ start_blk
    ∷ eventfd 13
    ∷ irqfd 13
    ∷ open_random
    ∷ eventfd 14
    ∷ irqfd 14
    ∷ open_tun
    ∷ tun_set_iff
    ∷ tun_set_offload
    ∷ tun_set_header
    ∷ run_script
    ∷ start_net_tx
    ∷ start_net_rx
    ∷ []

-- `entry` and `m` are what the loading of the kernel gives.
abbrev pub start_calls : Kernel → ℕ → Memory → Calls
start_calls k entry m =
    get_supported_cpuid
      ∷ set_cpuid2 0 (Cpuid.filter_cpuid_copy k.cpuid)
      ∷ set_cpuid2 1 (Cpuid.filter_cpuid_copy k.cpuid)
      ∷ set_gsi_routing Routing.setup_irq_routing
      ∷ set_msrs 0 Cpu.setup_msrs
      ∷ set_fpu 0 Cpu.setup_fpu
      ∷ get_lapic 0
      ∷ set_lapic 0 (Cpu.setup_lapic (k.lapic 0))
      ∷ set_msrs 1 Cpu.setup_msrs
      ∷ set_fpu 1 Cpu.setup_fpu
      ∷ get_lapic 1
      ∷ set_lapic 1 (Cpu.setup_lapic (k.lapic 1))
      ∷ set_regs 0 (Cpu.setup_regs entry boot_stack_pointer zero_page_start)
      ∷ get_sregs 0
      ∷ set_sregs 0 ((setup_long_mode m (k.sregs 0)).1)
      ∷ device_calls
    ++ (start_cpu 0 ∷ start_cpu 1 ∷ start_terminal ∷ [])

-- The memory that the guest begins with.
abbrev pub boot_memory : Kernel → Layout → List ℕ → Memory → Memory
boot_memory k l cmdline m =
    setup_mptable
      (setup_bootparams l ((setup_long_mode m (k.sregs 0)).0) cmdline (memory_size memory_bytes))
      cpu_count

module _ (answers : Calls → Call → Option ℕ) (version : ℕ) where
  line-Follows :
      (ns : List ℕ) (n : ℕ)
      → is_registered ns n ≡ false
      → Follows answers version (register_irq answers ns n) (n ∷ ns) (line_calls n)
  line-Follows = register_irq-Follows-new answers version

  again-Follows :
      (ns : List ℕ) (n : ℕ)
      → is_registered ns n ≡ true
      → Follows answers version (register_irq answers ns n) ns []
  again-Follows = register_irq-Follows-again answers version

  add_devices-Follows :
      Follows answers version (add_devices answers) (14 ∷ 13 ∷ 12 ∷ 3 ∷ 4 ∷ 1 ∷ []) device_calls
  unfolding add_devices
  add_devices-Follows = after _ (line-Follows [] 1 refl) (
      after _ (line-Follows _ 4 refl) (
        after _ (line-Follows _ 3 refl) (
          after _ (again-Follows _ 4 refl) (
            after _ (again-Follows _ 3 refl) (
              after _ (line-Follows _ 12 refl) (
                after _ (new_blk-Follows answers version) (
                  after _ (line-Follows _ 13 refl) (
                    after _ (check refl) (
                      after _ (line-Follows _ 14 refl)
                        (after _ (new_net-Follows answers version) done))))))))))

  pub new_vm-Follows-boot :
      Follows answers version (new_vm answers version cpu_count memory_bytes) tt vm_calls
  new_vm-Follows-boot =
      subst
        (λ (rs : List Region).
          Follows answers version (new_vm answers version cpu_count memory_bytes) tt
            (machine_calls cpu_count rs))
        create_memory-two (new_vm-Follows answers version cpu_count memory_bytes)

  pub start-Follows :
      (k : Kernel) (l : Layout) (cmdline : List ℕ) (loaded : Result (ℕ × Memory)) (entry : ℕ)
      (m : Memory)
      → loaded ≡ ok (entry, m)
      → Follows answers version
          (start answers k l cmdline loaded)
          (boot_memory k l cmdline m)
          (start_calls k entry m)
  unfolding start
  start-Follows k l cmdline loaded entry m h = after _ (check refl) (
      after _ (set_cpuids-Follows answers version _ 2 0) (
        after _ (Follows-lift answers version loaded (entry, m) h) (
          after _ (check refl) (
            after _ (setup_cpus-Follows answers version k 2 0) (
              after _ (check refl) (
                after _ (check refl) (
                  after _ (check refl) (
                    after _ add_devices-Follows (
                      after _ (start_cpus-Follows answers version 2 0)
                        (after _ (check refl) done))))))))))

  -- Whatever the system answers, and after any earlier calls: if the kernel's file can be loaded,
  -- with this entry and memory, then `main` returns the memory with the page tables, the boot
  -- parameters and the table of processors written to it, has made exactly the listed calls, in
  -- order and with the listed structures, and got an answer to each on which it may go on; or it
  -- throws, has made a first part of the list, and the last of these calls or the last but one is
  -- the one whose answer is the reason: a call whose result is looked at was refused, the version
  -- was another one, or the size of the shared structure was zero.
  pub main-Follows :
      (k : Kernel) (l : Layout) (cmdline : List ℕ) (loaded : Result (ℕ × Memory)) (entry : ℕ)
      (m : Memory)
      → loaded ≡ ok (entry, m)
      → Follows answers version
          (main answers version k l cmdline loaded)
          (boot_memory k l cmdline m)
          (construction_calls ++ start_calls k entry m)
  unfolding main
  main-Follows k l cmdline loaded entry m h = after _ (new_kvm-Follows answers version) (
      after _ (new_terminal-Follows answers version)
        (after _ new_vm-Follows-boot (start-Follows k l cmdline loaded entry m h)))
