-- ===== src/Mptable/Place.antt =====
-- mptable.h: where the table and the pointer to it are in the guest's memory.
use kthxvm.Base.{
  ℕ, ◌+◌, ◌-◌, ◌%◌, ◌≤◌, ◌≡◌, refl, sym, ap, ◌∙◌, List, [], ◌∷◌, ◌++◌, length, length-append,
  length-replicate, replicate, map, u8, arith,
}
use kthxvm.Memory.{
  Memory, write_bytes, read_bytes, Outside, write_bytes-Outside, write_bytes-append,
  read_bytes-write_bytes,
}
use kthxvm.Mptable.{
  mptable_start, mpf_intel, pointer, align16, config_table, mptable_bytes, setup_mptable,
  mpf_checksum, sum,
}
use kthxvm.Mptable.Checksum.{length-config_table}

abbrev pub pointer_at : ℕ → ℕ
pointer_at n = mptable_start + align16 (length (config_table n))

-- The table and the gap after it.
padded : ℕ → List ℕ
padded n =
    let table = config_table n in table ++ replicate (align16 (length table) - length table) 0

length-padded : (n : ℕ) → length (padded n) ≡ align16 (length (config_table n))
unfolding padded
length-padded n =
    let table = config_table n in
    let gap = align16 (length table) - length table in
    omega (arith, length-append table (replicate gap 0), length-replicate {A = ℕ} gap 0)

length-pointer : length pointer ≡ 16
unfolding pointer mpf_intel
length-pointer = refl

read-pointer :
    (m : Memory) (n : ℕ) → read_bytes (setup_mptable m n) (pointer_at n) 16 ≡ map u8 pointer
unfolding setup_mptable mptable_bytes padded
read-pointer m n =
    let before = write_bytes m mptable_start (padded n) in
    let two : setup_mptable m n ≡ write_bytes before (pointer_at n) pointer =
      sym (write_bytes-append (padded n) pointer m mptable_start)
      ∙ ap (λ (k : ℕ). write_bytes before (mptable_start + k) pointer) (length-padded n) in
    ap (λ (m' : Memory). read_bytes m' (pointer_at n) 16) two
    ∙ ap (λ (k : ℕ). read_bytes (write_bytes before (pointer_at n) pointer) (pointer_at n) k)
        (sym length-pointer)
    ∙ read_bytes-write_bytes pointer before (pointer_at n)

-- With at most 46 processors, the pointer is at a multiple of 16 and inside the last kilobyte below
-- 640 KB, where a guest looks for it; its bytes are the signature "_MP_", the table's address, the
-- length, the version and the checksum, and no byte outside of the run from the table to the
-- pointer's end is changed.
pub setup_mptable-placed :
    (m : Memory) (n : ℕ)
    → n ≤ 46
    → (pointer_at n % 16 ≡ 0)
      × (pointer_at n + 16 ≤ 0xa0000)
      × (read_bytes (setup_mptable m n) (pointer_at n) 16
          ≡ 95 ∷ 77 ∷ 80 ∷ 95 ∷ 0 ∷ 0xfc ∷ 9 ∷ 0 ∷ 1 ∷ 4 ∷ 155 ∷ 0 ∷ 0 ∷ 0 ∷ 0 ∷ 0 ∷ [])
      × ((x : ℕ)
          → Outside mptable_start (pointer_at n + 16 - mptable_start) x
          → setup_mptable m n x ≡ m x)
unfolding setup_mptable mptable_bytes padded pointer mpf_intel mpf_checksum sum
setup_mptable-placed m n h =
    let len = length-config_table n in
    let size = length-append (padded n) pointer in
    (
      omega (arith, len),
      omega (arith, len),
      read-pointer m n,
      λ x out.
          write_bytes-Outside (padded n ++ pointer) m mptable_start x
            (omega (arith, size, len, length-padded n, length-pointer)),
    )
