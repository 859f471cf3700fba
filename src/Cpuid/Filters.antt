-- ===== src/Cpuid/Filters.antt =====
-- cpuid.h: which bits of an entry the filters change.
use kthxvm.Base.{
  ℕ, zero, suc, ◌/◌, ◌%◌, ◌^◌, ◌<◌, ◌≡◌, ◌≢◌, refl, true, ◌||◌, ◌&&◌, not, List, [], ◌∷◌, bit_and,
  bit_or, bit_at, bit_at-bit_and, bit_at-bit_or, bit_and-zero, ◌==◌, each_digit, each_digit_lem,
  bit_at_bound, ==_iff, if◌then◌else◌, arith, get_elem?, Option, none, some, ap,
}
use kthxvm.Cpuid.{
  Entry, complement, lkvm, perf_monitoring, copy_entry, filter_cpuid_copy, cache_parameters,
  filter_entry,
}

pub set_bit :
    (k x i : ℕ)
    → i < 32
    → each_digit (λ j. bit_at j (2 ^ k) == (if j == k then 1 else 0)) 32 ≡ true
    → bit_at i (bit_or x (2 ^ k)) ≡ (if i == k then 1 else bit_at i x)
set_bit k x i h table =
    let digit : bit_at i (2 ^ k) ≡ (if i == k then 1 else 0) =
      (==_iff _ _).0
        (each_digit_lem (λ j. bit_at j (2 ^ k) == (if j == k then 1 else 0)) 32 h table) in
    ground (arith, bit_at-bit_or i x (2 ^ k), digit, bit_at_bound i x)

pub clear_bit :
    (k x i : ℕ)
    → i < 32
    → each_digit (λ j. bit_at j (complement (2 ^ k)) == (if j == k then 0 else 1)) 32 ≡ true
    → bit_at i (bit_and x (complement (2 ^ k))) ≡ (if i == k then 0 else bit_at i x)
clear_bit k x i h table =
    let digit : bit_at i (complement (2 ^ k)) ≡ (if i == k then 0 else 1) = (==_iff _ _).0 (
      each_digit_lem (λ j. bit_at j (complement (2 ^ k)) == (if j == k then 0 else 1)) 32 h
        table) in
    ground (arith, bit_at-bit_and i x (complement (2 ^ k)), digit, bit_at_bound i x)

get_elem?-copy :
    (es : List Entry) (n : ℕ) (e : Entry)
    → get_elem? es n ≡ some e
    → get_elem? (filter_cpuid_copy es) n ≡ some (copy_entry e)
unfolding filter_cpuid_copy
get_elem?-copy [] n e h = cc h
get_elem?-copy (x ∷ es) zero e h = ap copy_entry_of h
  where
    copy_entry_of : Option Entry → Option Entry
    copy_entry_of none = none
    copy_entry_of (some y) = some (copy_entry y)
get_elem?-copy (x ∷ es) (suc n) e h = get_elem?-copy es n e h

copied :
    (e : Entry) (i : ℕ)
    → i < 32
    → let monitored = e.eax % 256 == 2 && not (e.eax / 256 % 256 == 0) in
      let e' = copy_entry e in
      (bit_at i e'.ecx ≡ (
        if e.function == 0x0
        then bit_at i lkvm
        else if e.function == 0x1 && e.index == 0 && i == 31
        then 1
        else if e.function == 0x6 && i == 3
        then 0
        else bit_at i e.ecx))
      × (e'.eax ≡ (if e.function == 0xa && not monitored then 0 else e.eax))
      × (e'.ebx ≡ (if e.function == 0x0 then lkvm else e.ebx))
      × (e'.edx ≡ (if e.function == 0x0 then lkvm else e.edx))
      × (e'.function ≡ e.function)
      × (e'.index ≡ e.index)
unfolding copy_entry perf_monitoring
copied e i h =
    let hypervisor = set_bit 31 e.ecx i h refl in
    let bias = clear_bit 3 e.ecx i h refl in ground (arith, hypervisor, bias)

-- `filter_cpuid_copy` gives each entry these registers and keeps its leaf and index. Leaf 0 names
-- "LKVM" three times. The third register gets the bit of the hypervisor in leaf 1 at index 0, and
-- loses that of the energy bias in leaf 6. The first is zero in leaf 10 unless the version is 2 and
-- there is a counter. Every other bit is the processor's.
pub filter_cpuid_copy_lem :
    (es : List Entry) (n i : ℕ) (e : Entry)
    → i < 32
    → get_elem? es n ≡ some e
    → let monitored = e.eax % 256 == 2 && not (e.eax / 256 % 256 == 0) in
      (e' : Entry) × (get_elem? (filter_cpuid_copy es) n ≡ some e')
      × (bit_at i e'.ecx ≡ (
          if e.function == 0x0
          then bit_at i lkvm
          else if e.function == 0x1 && e.index == 0 && i == 31
          then 1
          else if e.function == 0x6 && i == 3
          then 0
          else bit_at i e.ecx))
      × (e'.eax ≡ (if e.function == 0xa && not monitored then 0 else e.eax))
      × (e'.ebx ≡ (if e.function == 0x0 then lkvm else e.ebx))
      × (e'.edx ≡ (if e.function == 0x0 then lkvm else e.edx))
      × (e'.function ≡ e.function)
      × (e'.index ≡ e.index)
filter_cpuid_copy_lem es n i e h at =
    let p = copied e i h in (copy_entry e, get_elem?-copy es n e at, p.0, p.1, p.2, p.3, p.4, p.5)

bit_at_zero : (i : ℕ) → bit_at i 0 ≡ 0
bit_at_zero zero = refl
bit_at_zero (suc i) = bit_at_zero i

-- In the leaves other than 0, 10 and 11, `filter_cpuid` sets the bit of the hypervisor and clears
-- that of hyperthreading in leaf 1; in leaf 4 the whole first register becomes zero, and in leaf 6
-- the whole first and third. Every other bit is the processor's.
pub filter_entry_lem :
    (e : Entry) (i : ℕ)
    → i < 32
    → e.function ≢ 0x0
    → e.function ≢ 0xa
    → e.function ≢ 0xb
    → let e' = filter_entry e in
      (bit_at i e'.ecx ≡ (
        if e.function == 0x1 && i == 31
        then 1
        else if e.function == 0x6
        then 0
        else bit_at i e.ecx))
      × (bit_at i e'.edx ≡ (if e.function == 0x1 && i == 28 then 0 else bit_at i e.edx))
      × (e'.eax ≡ (if e.function == 0x4 || e.function == 0x6 then 0 else e.eax))
      × (e'.ebx ≡ e.ebx)
unfolding filter_entry cache_parameters
filter_entry_lem e i h h0 ha hb =
    let hypervisor = set_bit 31 e.ecx i h refl in
    let threads = clear_bit 28 e.edx i h refl in
    let none_a = bit_and-zero e.eax in
    let none_c = bit_and-zero e.ecx in
    let nothing = bit_at_zero i in ground (arith, hypervisor, threads, none_a, none_c, nothing)
