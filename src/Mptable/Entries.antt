-- ===== src/Mptable/Entries.antt =====
-- mptable.h: what a reader of the table finds in it, by the sizes of the entries that the
-- multiprocessor specification gives.
use kthxvm.Base.{
  ℕ, zero, suc, ◌+◌, ◌≤◌, ◌<◌, ◌≡◌, refl, ap, ap₂, ◌∙◌, List, [], ◌∷◌, ◌++◌, drop, slice, get_or,
  Bool, true, from_bytes, u8, u32, has, ◌==◌, if◌then◌else◌, arith,
}
use kthxvm.Mptable.{
  mpc_table, mpc_cpu, mpc_cpus, mpc_bus, mpc_ioapic, mpc_intsrc, entries, config_table,
  gen_cpu_flag, ioapic_addr,
}

-- An entry, by the type in its first byte.
pub data Entry : Type 0 where
  cpu : (apicid : ℕ) (enabled boot : Bool) → Entry
  bus : (busid : ℕ) (bustype : List ℕ) → Entry
  ioapic : (apicid address : ℕ) → Entry
  lint : (irqtype dstapic dstirq : ℕ) → Entry
  unknown : Entry

-- The entry that bytes begin with, and its size.
entry : List ℕ → Entry
entry bs =
    let at = λ (i : ℕ). get_or bs i 0 in
    let kind = at 0 in
    if kind == 0
    then cpu (at 1) (has (at 3) 1) (has (at 3) 2)
    else if kind == 1
    then bus (at 1) (slice bs 2 6)
    else if kind == 2
    then ioapic (at 1) (from_bytes (slice bs 4 4))
    else if kind == 4
    then lint (at 1) (at 6) (at 7)
    else unknown

entry_size : List ℕ → ℕ
entry_size bs = if get_or bs 0 0 == 0 then 20 else 8

-- `n` entries.
read_entries : ℕ → List ℕ → List Entry
read_entries zero bs = []
read_entries (suc n) bs = entry bs ∷ read_entries n (drop (entry_size bs) bs)

-- The entries of a table, as many as its bytes 34 and 35 say.
pub read_table : List ℕ → List Entry
read_table bs = read_entries (from_bytes (slice bs 34 2)) (drop 44 bs)

-- The processors from `i` on: all enabled, and the first one boots.
pub processors : ℕ → ℕ → List Entry
processors zero i = []
processors (suc n) i = cpu i true (i == 0) ∷ processors n (i + 1)

-- What follows the processors of the table: the one bus is "PCI", LINT0 is a vectored
-- interrupt and LINT1 is not maskable.
pub after : ℕ → List Entry
after n =
    bus 0 (80 ∷ 67 ∷ 73 ∷ 32 ∷ 32 ∷ 32 ∷ [])
    ∷ ioapic (n + 1) (ioapic_addr 0)
    ∷ lint 0 0 0
    ∷ lint 1 0 1
    ∷ []

cpu_entry :
    (i n : ℕ) (rest : List ℕ) → i < n → n ≤ 254 → entry (mpc_cpu i n ++ rest) ≡ cpu i true (i == 0)
unfolding entry mpc_cpu gen_cpu_flag
cpu_entry i n rest h small = let id : u8 i ≡ i = omega arith in rw id (ground arith)

drop-cpu :
    (i n : ℕ) (rest : List ℕ) → drop (entry_size (mpc_cpu i n ++ rest)) (mpc_cpu i n ++ rest) ≡ rest
unfolding entry_size mpc_cpu
drop-cpu i n rest = refl

others : ℕ → List ℕ
others n = mpc_bus ++ (mpc_ioapic n ++ (mpc_intsrc 0 0 ++ mpc_intsrc 1 1))

read-others : (n : ℕ) → n ≤ 254 → read_entries 4 (others n) ≡ after n
unfolding read_entries others entry entry_size mpc_bus mpc_ioapic mpc_intsrc after
read-others n h =
    ap
      (λ (i : ℕ).
        bus 0 (80 ∷ 67 ∷ 73 ∷ 32 ∷ 32 ∷ 32 ∷ [])
        ∷ ioapic i (ioapic_addr 0)
        ∷ lint 0 0 0
        ∷ lint 1 0 1
        ∷ [])
      ids
  where
    ids : u8 (u32 (n + 1)) ≡ n + 1
    ids = omega arith

read-mpc_cpus :
    (k i n : ℕ) (rest : List ℕ)
    → i + k ≤ n
    → n ≤ 254
    → read_entries (k + 4) (mpc_cpus k i n ++ rest) ≡ processors k i ++ read_entries 4 rest
unfolding read_entries mpc_cpus mpc_cpu processors
read-mpc_cpus zero i n rest h small = refl
read-mpc_cpus (suc k) i n rest h small =
    let tail = mpc_cpus k (i + 1) n ++ rest in
    let once : suc k + 4 ≡ suc (k + 4) = omega arith in
    ap (λ (c : ℕ). read_entries c (mpc_cpu i n ++ tail)) once
    ∙ ap₂ ◌∷◌ (cpu_entry i n tail (omega arith) small) (
        ap (read_entries (k + 4)) (drop-cpu i n tail)
        ∙ read-mpc_cpus k (i + 1) n rest (omega arith) small)

-- With at most 254 processors, a reader finds in the table every processor under its number,
-- enabled, and the first alone as the one that boots; then one bus, of the type "PCI", the
-- interrupt controller, under the number of processors plus one, and the two local interrupts.
pub read-config_table : (n : ℕ) → n ≤ 254 → read_table (config_table n) ≡ processors n 0 ++ after n
unfolding read_table config_table mpc_table entries others
read-config_table n h =
    let stored : from_bytes (slice (config_table n) 34 2) ≡ n + 4 = omega arith in
    ap (λ (c : ℕ). read_entries c (entries n)) stored
    ∙ read-mpc_cpus n 0 n (others n) (omega arith) h
    ∙ ap (λ (es : List Entry). processors n 0 ++ es) (read-others n h)
