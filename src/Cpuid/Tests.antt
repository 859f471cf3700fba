-- ===== src/Cpuid/Tests.antt =====
-- cpuid.h on entries of leaves 1, 6 and 10.
use kthxvm.Base.{ℕ, ◌≡◌, refl, [], ◌∷◌, some, get_elem?, bit_at, arith}
use kthxvm.Cpuid.{Entry, filter_cpuid_copy}
use kthxvm.Cpuid.Filters.{filter_cpuid_copy_lem}

abbrev leaf : ℕ → Entry
leaf function = record {
  function = function;
  index = 0;
  eax = 0x07300401;
  ebx = 2;
  ecx = 0x0000000f;
  edx = 0x10000000;
}

filter_cpuid_copy_lem_example :
    (e' : Entry) × (get_elem? (filter_cpuid_copy (leaf 0x1 ∷ leaf 0xa ∷ [])) 1 ≡ some e')
    × (bit_at 3 e'.ecx ≡ 1)
    × (e'.eax ≡ 0)
    × (e'.ebx ≡ 2)
    × (e'.edx ≡ 0x10000000)
    × (e'.function ≡ 0xa)
    × (e'.index ≡ 0)
filter_cpuid_copy_lem_example =
    filter_cpuid_copy_lem (leaf 0x1 ∷ leaf 0xa ∷ []) 1 3 (leaf 0xa) (omega arith) refl
