-- ===== src/Host/Setup.antt =====
-- kvm.h, vcpu.h and vm.h: the constructors; terminal.h: the constructor.
use kthxvm.Base.{
  ℕ, zero, suc, ◌+◌, List, [], ◌∷◌, Option, none, some, err, thrown, ◌==◌, if◌then◌else◌,
}
use kthxvm.Ram.{Region, create_memory}
use kthxvm.Host.{
  Call, Calls, Host, ◌>>=◌, ◌>>◌, pure, lift, ask, checked, ignored, open_kvm, api_version,
  vcpu_mmap_size, create_vm, isatty, tcgetattr, tcsetattr, enable_x2apic, mmap_memory,
  madvise_memory, create_irqchip, create_pit, set_memory_region, set_tss_addr, create_vcpu,
  mmap_run,
}

module _ (answers : Calls → Call → Option ℕ) (version : ℕ) where
  -- Both calls are made before their results are looked at.
  unfoldable pub new_kvm : Host (Unit {0})
  new_kvm = do
    fd ← ask answers open_kvm
    v ← ask answers api_version
    elim fd [
      | none ↦ lift (err thrown)
      | some n ↦ elim v [
        | none ↦ lift (err thrown)
        | some v' ↦ if v' == version then pure tt else lift (err thrown)
      ]
    ]

  unfoldable pub new_terminal : Host (Unit {0})
  new_terminal = do
    checked answers (isatty 0)
    checked answers (isatty 1)
    checked answers tcgetattr
    checked answers tcsetattr

  -- `vm::create_vcpu`, with the constructor of `vcpu`.
  unfoldable pub new_vcpu : ℕ → Host (Unit {0})
  new_vcpu i = do
    size ← ask answers vcpu_mmap_size
    fd ← ask answers (create_vcpu i)
    elim fd [
      | none ↦ lift (err thrown)
      | some n ↦ elim size [
        | none ↦ lift (err thrown)
        | some s ↦ if s == 0 then lift (err thrown) else checked answers (mmap_run i)
      ]
    ]

  unfoldable pub new_vcpus : ℕ → ℕ → Host (Unit {0})
  new_vcpus zero i = pure tt
  new_vcpus (suc n) i = do new_vcpu i; new_vcpus n (i + 1)

  unfoldable pub set_regions : List Region → Host (Unit {0})
  set_regions [] = pure tt
  set_regions (r ∷ rs) = do checked answers (set_memory_region r); set_regions rs

  -- `vm::create_memory`
  unfoldable pub map_memory : ℕ → Host (Unit {0})
  map_memory mem = do
    checked answers mmap_memory
    ignored answers madvise_memory
    set_regions (create_memory mem)
    checked answers (set_tss_addr 0xfffbd000)

  unfoldable pub new_vm : ℕ → ℕ → Host (Unit {0})
  new_vm ncpus mem = do
    checked answers create_vm
    checked answers enable_x2apic
    map_memory mem
    checked answers create_irqchip
    checked answers create_pit
    new_vcpus ncpus 0
