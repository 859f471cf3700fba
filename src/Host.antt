-- ===== src/Host.antt =====
-- What the program asks of the system while it starts: src/kvm/kvm.h, the constructors and the
-- setters of vcpu.h and vm.h, those of the virtio devices, and the calls of `vmm::start`.
-- A call is one value of `Call`, with the structure that it passes where the program computes it.
-- `answers` is the system: its answer to a call, after the calls before it; `none` is a negative
-- result, an object that could not be opened, or no terminal.
pub mod Follows
pub mod Setup
pub mod Start
pub mod Calls
pub mod Parts
pub mod Order
pub mod Answered
pub mod Guest
pub mod Boots
mod Tests
use kthxvm.Base.{
  ℕ, List, [], ◌∷◌, ◌++◌, Option, none, some, Result, ok, err, Error, thrown, ◌==◌, if◌then◌else◌,
  Bool,
}
use kthxvm.Memory.{Memory}
use kthxvm.Cpu.{Regs, Fpu, Msr}
use kthxvm.Cpuid as Cpuid
use kthxvm.LongMode.{Sregs}
use kthxvm.Ram.{Region}
use kthxvm.Routing as Routing

pub data Call : Type 0 where
  -- kvm.h
  open_kvm api_version vcpu_mmap_size create_vm get_supported_cpuid : Call
  -- terminal.h
  isatty : (fd : ℕ) → Call
  tcgetattr tcsetattr : Call
  -- vm.h
  enable_x2apic mmap_memory madvise_memory create_irqchip create_pit : Call
  set_memory_region : Region → Call
  set_tss_addr : ℕ → Call
  set_gsi_routing : List Routing.Entry → Call
  eventfd irqfd : (line : ℕ) → Call
  -- vcpu.h, for the processor with this number
  create_vcpu mmap_run get_lapic get_sregs : (cpu : ℕ) → Call
  set_cpuid2 : (cpu : ℕ) → List Cpuid.Entry → Call
  set_msrs : (cpu : ℕ) → List Msr → Call
  set_fpu : (cpu : ℕ) → Fpu → Call
  set_lapic : (cpu : ℕ) → Memory → Call
  set_regs : (cpu : ℕ) → Regs → Call
  set_sregs : (cpu : ℕ) → Sregs → Call
  -- the virtio devices
  open_disk open_random open_tun tun_set_iff tun_set_offload tun_set_header run_script : Call
  -- the threads
  start_blk start_net_tx start_net_rx start_terminal : Call
  start_cpu : (cpu : ℕ) → Call

abbrev pub Calls : Type 0
Calls = List Call

-- A run of the program: what it has called so far goes in, and comes out beside the result.
abbrev pub Host : Type 0 → Type 0
Host A = Calls → Result A × Calls

abbrev pub continue : {A B : Type 0} → Result A → (A → Host B) → Host B
continue (ok a) k calls = k a calls
continue (err e) k calls = (err e, calls)

infixl 10 ◌>>=◌ ◌>>◌
unfoldable pub ◌>>=◌ : {A B : Type 0} → Host A → (A → Host B) → Host B
◌>>=◌ m k calls = let (r, after) = m calls in continue r k after

abbrev pub ◌>>◌ : {A B : Type 0} → Host A → Host B → Host B
m >> k = m >>= λ _. k

unfoldable pub pure : {A : Type 0} → A → Host A
pure a calls = (ok a, calls)

unfoldable pub lift : {A : Type 0} → Result A → Host A
lift r calls = (r, calls)

module _ (answers : Calls → Call → Option ℕ) where
  unfoldable pub ask : Call → Host (Option ℕ)
  ask c calls = (ok (answers calls c), calls ++ (c ∷ []))

  -- `if (… < 0) throw`, and the calls of which the result is not looked at.
  unfoldable pub checked : Call → Host (Unit {0})
  unfolding ◌>>=◌ pure lift ask
  checked c = ask c >>= λ r. elim r [ none ↦ lift (err thrown) | some v ↦ pure tt ]

  unfoldable pub ignored : Call → Host (Unit {0})
  unfolding ◌>>=◌ pure ask
  ignored c = ask c >>= λ r. pure tt
