-- ===== src/Ram.antt =====
-- src/kvm/vm.h: the guest's memory. `create_memory` gives the kernel its slots, and
-- `setup_bootparams` tells the guest of them; constants of vm.h and layout.h.
pub mod Map
pub mod Boot
pub mod Assigns
pub mod Fields
pub mod Params
mod Tests
use kthxvm.Base.{ℕ, ◌+◌, ◌-◌, ◌^◌, List, [], ◌∷◌, sub64, u64, ltb, leb, if◌then◌else◌}

abbrev pub max_mem_size : ℕ
max_mem_size = 2 ^ 32

abbrev pub gap_size : ℕ
gap_size = 0x30000000

abbrev pub gap_start : ℕ
gap_start = max_mem_size - gap_size

abbrev pub ebda_start : ℕ
ebda_start = 0x9fc00

abbrev pub himem_start : ℕ
himem_start = 0x100000

-- `struct kvm_userspace_memory_region`; the address in the host is kept as its distance from
-- `memory`.
pub record Region : Type 0 where
  pub slot : ℕ
  pub guest_addr : ℕ
  pub size : ℕ
  pub host_offset : ℕ

-- `memory_size`, for a machine with `mem` bytes.
pub memory_size : ℕ → ℕ
memory_size mem = if leb gap_start mem then u64 (mem + gap_size) else mem

-- The regions that are set, in order, when every call succeeds.
pub create_memory : ℕ → List Region
create_memory mem =
    let total = memory_size mem in
    if ltb total gap_start
    then record { slot = 0; guest_addr = 0; size = total; host_offset = 0 } ∷ []
    else record { slot = 0; guest_addr = 0; size = gap_start; host_offset = 0 }
      ∷ record {
        slot = 1;
        guest_addr = max_mem_size;
        size = sub64 total max_mem_size;
        host_offset = max_mem_size;
      }
      ∷ []

-- An entry of `e820_table` of type `E820_RAM`.
pub record E820 : Type 0 where
  pub addr : ℕ
  pub size : ℕ

-- The table that `setup_bootparams` leaves, for a machine whose `mem_size()` is `total`.
pub e820_table : ℕ → List E820
e820_table total =
    record { addr = 0; size = ebda_start }
    ∷ (if ltb total gap_start
        then record { addr = himem_start; size = sub64 total himem_start } ∷ []
        else record { addr = himem_start; size = gap_start - himem_start }
          ∷ record { addr = max_mem_size; size = sub64 total max_mem_size }
          ∷ [])
