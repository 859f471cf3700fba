-- ===== src/Cpuid.antt =====
-- src/kvm/cpuid.h: the two filters of the processor's identification before it is given to the
-- guest.
pub mod Filters
mod Tests
use kthxvm.Base.{
  ℕ, zero, suc, ◌+◌, ◌-◌, ◌*◌, ◌/◌, ◌%◌, ◌^◌, List, [], ◌∷◌, map, bit_and, bit_or, ◌<<<◌, ◌>>>◌,
  lnot, ◌==◌, ◌||◌, not, if◌then◌else◌,
}

-- `struct kvm_cpuid_entry2`, without its flags.
pub record Entry : Type 0 where
  pub function : ℕ
  pub index : ℕ
  pub eax : ℕ
  pub ebx : ℕ
  pub ecx : ℕ
  pub edx : ℕ

-- `~x` of 32 bits, for `x` below 2^32.
abbrev pub complement : ℕ → ℕ
complement x = 2 ^ 32 - 1 - x

-- Four characters as a number, the first one lowest.
abbrev pub chars : ℕ → ℕ → ℕ → ℕ → ℕ
chars a b c d = a + 256 * (b + 256 * (c + 256 * d))

-- "LKVM"
abbrev pub lkvm : ℕ
lkvm = chars 76 75 86 77

-- `case 0xa` of `filter_cpuid_copy`: the bytes are the fields of `cpuid10_eax`.
pub perf_monitoring : Entry → Entry
perf_monitoring e =
    let version_id = e.eax % 256 in
    let num_counters = e.eax / 256 % 256 in
    if e.eax == 0
    then e
    else if not (version_id == 2) || num_counters == 0
    then record e { eax = 0 }
    else e

-- The body of the loop of `filter_cpuid_copy`.
pub copy_entry : Entry → Entry
copy_entry e =
    if e.function == 0x0
    then record e { ebx = lkvm; ecx = lkvm; edx = lkvm }
    else if e.function == 0x1
    then (if e.index == 0 then record e { ecx = bit_or e.ecx (1 <<< 31) } else e)
    else if e.function == 0x6
    then record e { ecx = bit_and e.ecx (complement (1 <<< 3)) }
    else if e.function == 0xa
    then perf_monitoring e
    else e

pub filter_cpuid_copy : List Entry → List Entry
filter_cpuid_copy entries = map copy_entry entries

-- `case 0x4` of `filter_cpuid`: levels 1, 2 and 3 have the same statement.
pub cache_parameters : Entry → Entry
cache_parameters e =
    let cache_level = bit_and (e.eax >>> 5) 0b111 in
    let e' =
      if cache_level == 1 || cache_level == 2 || cache_level == 3
      then record e { eax = bit_and e.eax (lnot (0b111111111111 <<< 14)) }
      else e in
    record e' { eax = bit_and e'.eax (lnot (0b111111 <<< 26)) }

-- `case 0xB` of `filter_cpuid`.
pub topology : Entry → Entry
topology e =
    if e.index == 0
    then record e { eax = 0; ebx = 1; ecx = 2 <<< 8 }
    else if e.index == 1
    then record e { eax = 6; ebx = 0; ecx = bit_or e.index (0 <<< 8) }
    else record e { eax = 0; ebx = 0; ecx = e.index }

-- The body of the loop of `filter_cpuid`.
pub filter_entry : Entry → Entry
filter_entry e =
    if e.function == 0x0
    then record e {
      ebx = chars 71 101 110 117;
      edx = chars 105 110 101 73;
      ecx = chars 110 116 101 108;
    }
    else if e.function == 0x1
    then record e { ecx = bit_or e.ecx (1 <<< 31); edx = bit_and e.edx (complement (1 <<< 28)) }
    else if e.function == 0x4
    then cache_parameters e
    else if e.function == 0x6
    then record e { eax = bit_and e.eax (lnot (1 <<< 1)); ecx = bit_and e.ecx (lnot (1 <<< 3)) }
    else if e.function == 0xa
    then record e { eax = 0; ebx = 0; ecx = 0; edx = 0 }
    else if e.function == 0xb
    then topology e
    else e

pub filter_cpuid : List Entry → List Entry
filter_cpuid entries = map filter_entry entries
