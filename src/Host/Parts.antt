-- ===== src/Host/Parts.antt =====
-- The parts of a start of the program, each with the calls that it makes.
use kthxvm.Base.{ℕ, zero, suc, ◌+◌, ◌≡◌, refl, List, [], ◌∷◌, ◌++◌, Option, false, true}
use kthxvm.Cpu as Cpu
use kthxvm.Cpuid as Cpuid
use kthxvm.Ram.{Region, create_memory}
use kthxvm.Host.{
  Call, Calls, isatty, tcgetattr, tcsetattr, enable_x2apic, create_vm, mmap_memory, madvise_memory,
  create_irqchip, create_pit, set_memory_region, set_tss_addr, eventfd, irqfd, get_lapic,
  set_cpuid2, set_msrs, set_fpu, set_lapic, open_disk, open_tun, tun_set_iff, tun_set_offload,
  tun_set_header, run_script, start_blk, start_net_tx, start_net_rx, start_cpu,
}
use kthxvm.Host.Follows.{Follows, after, check, skip, done}
use kthxvm.Host.Setup.{new_terminal, new_vcpus, set_regions, map_memory, new_vm}
use kthxvm.Host.Start.{
  Kernel, register_irq, is_registered, new_blk, create_tap, new_net, set_cpuids, setup_cpus,
  start_cpus,
}
use kthxvm.Host.Calls.{vcpu_calls, new_vcpu-Follows}

-- The calls of a loop over processors, from the number `i` on.
abbrev pub for_cpus : (ℕ → Calls) → ℕ → ℕ → Calls
for_cpus f zero i = []
for_cpus f (suc n) i = f i ++ for_cpus f n (i + 1)

abbrev pub region_calls : List Region → Calls
region_calls [] = []
region_calls (r ∷ rs) = set_memory_region r ∷ region_calls rs

abbrev pub terminal_calls : Calls
terminal_calls = isatty 0 ∷ isatty 1 ∷ tcgetattr ∷ tcsetattr ∷ []

abbrev pub memory_calls : List Region → Calls
memory_calls rs = mmap_memory ∷ madvise_memory ∷ region_calls rs ++ (set_tss_addr 0xfffbd000 ∷ [])

abbrev pub machine_calls : ℕ → List Region → Calls
machine_calls n rs =
    create_vm ∷ enable_x2apic ∷ memory_calls rs
    ++ (create_irqchip ∷ create_pit ∷ for_cpus vcpu_calls n 0)

abbrev pub setup_calls : Kernel → ℕ → Calls
setup_calls k i =
    set_msrs i Cpu.setup_msrs
    ∷ set_fpu i Cpu.setup_fpu
    ∷ get_lapic i
    ∷ set_lapic i (Cpu.setup_lapic (k.lapic i))
    ∷ []

abbrev pub line_calls : ℕ → Calls
line_calls n = eventfd n ∷ irqfd n ∷ []

abbrev pub tap_calls : Calls
tap_calls = open_tun ∷ tun_set_iff ∷ tun_set_offload ∷ tun_set_header ∷ run_script ∷ []

module _ (answers : Calls → Call → Option ℕ) (version : ℕ) where
  pub new_terminal-Follows :
      Follows answers version (new_terminal answers version) tt terminal_calls
  unfolding new_terminal
  new_terminal-Follows =
      after _ (check refl) (after _ (check refl) (after _ (check refl) (check refl)))

  pub new_vcpus-Follows :
      (n i : ℕ)
      → Follows answers version (new_vcpus answers version n i) tt (for_cpus vcpu_calls n i)
  unfolding new_vcpus
  new_vcpus-Follows zero i = done
  new_vcpus-Follows (suc n) i =
      after _ (new_vcpu-Follows answers version i) (new_vcpus-Follows n (i + 1))

  pub set_regions-Follows :
      (rs : List Region)
      → Follows answers version (set_regions answers version rs) tt (region_calls rs)
  unfolding set_regions
  set_regions-Follows [] = done
  set_regions-Follows (r ∷ rs) = after _ (check refl) (set_regions-Follows rs)

  pub map_memory-Follows :
      (mem : ℕ)
      → Follows answers version
          (map_memory answers version mem)
          tt
          (memory_calls (create_memory mem))
  unfolding map_memory
  map_memory-Follows mem =
      after _ (check refl)
        (after _ (skip refl) (after _ (set_regions-Follows (create_memory mem)) (check refl)))

  pub new_vm-Follows :
      (n mem : ℕ)
      → Follows answers version
          (new_vm answers version n mem)
          tt
          (machine_calls n (create_memory mem))
  unfolding new_vm
  new_vm-Follows n mem = after _ (check refl) (
      after _ (check refl) (
        after _ (map_memory-Follows mem)
          (after _ (check refl) (after _ (check refl) (new_vcpus-Follows n 0)))))

  pub new_blk-Follows : Follows answers version (new_blk answers) tt (open_disk ∷ start_blk ∷ [])
  unfolding new_blk
  new_blk-Follows = after _ (check refl) (check refl)

  pub create_tap-Follows : Follows answers version (create_tap answers) tt tap_calls
  unfolding create_tap
  create_tap-Follows =
      after _ (skip refl)
        (after _ (check refl) (after _ (check refl) (after _ (check refl) (check refl))))

  pub new_net-Follows :
      Follows answers version (new_net answers) tt (tap_calls ++ (start_net_tx ∷ start_net_rx ∷ []))
  unfolding new_net
  new_net-Follows = after _ create_tap-Follows (after _ (check refl) (check refl))

  pub set_cpuids-Follows :
      (es : List Cpuid.Entry) (n i : ℕ)
      → Follows answers version
          (set_cpuids answers es n i)
          tt
          (for_cpus (λ j. set_cpuid2 j es ∷ []) n i)
  unfolding set_cpuids
  set_cpuids-Follows es zero i = done
  set_cpuids-Follows es (suc n) i = after _ (check refl) (set_cpuids-Follows es n (i + 1))

  pub setup_cpus-Follows :
      (k : Kernel) (n i : ℕ)
      → Follows answers version (setup_cpus answers k n i) tt (for_cpus (setup_calls k) n i)
  unfolding setup_cpus
  setup_cpus-Follows k zero i = done
  setup_cpus-Follows k (suc n) i = after _ (check refl) (
      after _ (check refl)
        (after _ (check refl) (after _ (check refl) (setup_cpus-Follows k n (i + 1)))))

  pub start_cpus-Follows :
      (n i : ℕ)
      → Follows answers version (start_cpus answers n i) tt (for_cpus (λ j. start_cpu j ∷ []) n i)
  unfolding start_cpus
  start_cpus-Follows zero i = done
  start_cpus-Follows (suc n) i = after _ (check refl) (start_cpus-Follows n (i + 1))

  -- A line that is registered already gets no second eventfd.
  pub register_irq-Follows-new :
      (ns : List ℕ) (n : ℕ)
      → is_registered ns n ≡ false
      → Follows answers version (register_irq answers ns n) (n ∷ ns) (line_calls n)
  unfolding register_irq
  register_irq-Follows-new ns n h = rw h (after _ (skip refl) (after _ (check refl) done))

  pub register_irq-Follows-again :
      (ns : List ℕ) (n : ℕ)
      → is_registered ns n ≡ true
      → Follows answers version (register_irq answers ns n) ns []
  unfolding register_irq
  register_irq-Follows-again ns n h = rw h done
