-- ===== src/Mptable/Checksum.antt =====
-- mptable.h: the lengths and the checksums of the table and of the pointer to it.
use kthxvm.Base.{
  ℕ, zero, suc, ◌+◌, ◌*◌, ◌%◌, ◌^◌, ◌≤◌, ◌≡◌, refl, ap, ◌∙◌, List, [], ◌∷◌, ◌++◌, length,
  length-append, take, slice, from_bytes, u8, u16, u32, bit_and-low, arith,
}
use kthxvm.Mptable.{
  sum, mpf_checksum, negated, mpc_table, mpc_cpu, mpc_cpus, mpc_bus, mpc_ioapic, mpc_intsrc,
  entries, config_table, pointer, mpf_intel,
}

-- The sum of the bytes, without a width: what the specification of the table asks for.
pub total : List ℕ → ℕ
total [] = 0
total (b ∷ bs) = u8 b + total bs

total-append : (bs cs : List ℕ) → total (bs ++ cs) ≡ total bs + total cs
unfolding total
total-append [] cs = omega arith
total-append (b ∷ bs) cs = omega (arith, total-append bs cs)

sum-total : (bs : List ℕ) → sum bs ≡ total bs % 2 ^ 32
unfolding sum total
sum-total [] = refl
sum-total (b ∷ bs) = omega (arith, sum-total bs)

mpf_checksum-total : (bs : List ℕ) → mpf_checksum bs ≡ total bs % 256
unfolding mpf_checksum
mpf_checksum-total bs = omega (arith, bit_and-low 8 (sum bs), sum-total bs)

take-length : (bs : List ℕ) → take (length bs) bs ≡ bs
take-length [] = refl
take-length (b ∷ bs) = ap (◌∷◌ b) (take-length bs)

pub length-mpc_cpus : (n i ncpus : ℕ) → length (mpc_cpus n i ncpus) ≡ n * 20
unfolding mpc_cpus mpc_cpu
length-mpc_cpus zero i ncpus = refl
length-mpc_cpus (suc n) i ncpus = omega (arith, length-mpc_cpus n (i + 1) ncpus)

pub length-entries : (n : ℕ) → length (entries n) ≡ n * 20 + 32
unfolding entries mpc_bus mpc_ioapic mpc_intsrc
length-entries n =
    let rest = mpc_bus ++ (mpc_ioapic n ++ (mpc_intsrc 0 0 ++ mpc_intsrc 1 1)) in
    let parts : length (entries n) ≡ length (mpc_cpus n 0 n) + length rest =
      length-append (mpc_cpus n 0 n) rest in
    omega (arith, parts, length-mpc_cpus n 0 n)

pub length-mpc_table :
    (size checksum count : ℕ) (rest : List ℕ)
    → length (mpc_table size checksum count ++ rest) ≡ 44 + length rest
unfolding mpc_table
length-mpc_table size checksum count rest = omega arith

-- The checksum's byte counts as one byte among the others.
total-mpc_table :
    (size checksum count : ℕ) (rest : List ℕ)
    → total (mpc_table size checksum count ++ rest)
      ≡ u8 checksum + total (mpc_table size 0 count ++ rest)
unfolding mpc_table total
total-mpc_table size checksum count rest = omega arith

-- A byte that completes a sum to a multiple of 256.
negated_lem : (t : ℕ) → (u8 (negated (t % 256)) + t) % 256 ≡ 0
negated_lem t = omega arith

pub length-config_table : (n : ℕ) → length (config_table n) ≡ n * 20 + 76
unfolding config_table
length-config_table n = length-mpc_table _ _ _ (entries n) ∙ omega (arith, length-entries n)

size-config_table : (n : ℕ) → n ≤ 3272 → u16 (44 + length (entries n)) ≡ n * 20 + 76
size-config_table n h = omega (arith, length-entries n)

-- The table with a zero for its checksum.
unsigned : ℕ → List ℕ
unsigned n = mpc_table (u16 (44 + length (entries n))) 0 (u32 (n + 4)) ++ entries n

take-unsigned : (n : ℕ) → n ≤ 3272 → take (u16 (44 + length (entries n))) (unsigned n) ≡ unsigned n
unfolding unsigned
take-unsigned n h =
    let size = u16 (44 + length (entries n)) in
    let all : size ≡ length (unsigned n) =
      omega (arith, length-entries n, length-mpc_table size 0 (u32 (n + 4)) (entries n)) in
    ap (λ (k : ℕ). take k (unsigned n)) all ∙ take-length (unsigned n)

config_table-total : (n : ℕ) → n ≤ 3272 → total (config_table n) % 256 ≡ 0
unfolding config_table unsigned
config_table-total n h =
    let size = u16 (44 + length (entries n)) in
    let check = negated (mpf_checksum (take size (unsigned n))) in
    let whole : mpf_checksum (take size (unsigned n)) ≡ total (unsigned n) % 256 =
      ap mpf_checksum (take-unsigned n h) ∙ mpf_checksum-total (unsigned n) in
    ap (λ (t : ℕ). t % 256) (total-mpc_table size check (u32 (n + 4)) (entries n))
    ∙ ap (λ (t : ℕ). (u8 (negated t) + total (unsigned n)) % 256) whole
    ∙ negated_lem (total (unsigned n))

-- With at most 3272 processors, the length that the table has in its bytes 4 and 5 is its length,
-- and the bytes of the table, and those of the pointer, have a sum that is a multiple of 256.
pub config_table-checked :
    (n : ℕ)
    → n ≤ 3272
    → (from_bytes (slice (config_table n) 4 2) ≡ length (config_table n))
      × (total (config_table n) % 256 ≡ 0)
      × (total pointer % 256 ≡ 0)
unfolding config_table mpc_table pointer mpf_checksum sum mpf_intel total
config_table-checked n h =
    (omega (arith, length-config_table n, length-entries n), config_table-total n h, refl)
