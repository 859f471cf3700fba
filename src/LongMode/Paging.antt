-- ===== src/LongMode/Paging.antt =====
-- regs.h: what the page tables map, and what of the descriptor table reaches the guest.
use kthxvm.Base.{
  ℕ, zero, suc, ◌+◌, ◌*◌, ◌/◌, ◌%◌, ◌^◌, ◌≤◌, ◌<◌, ◌≡◌, refl, ap, ◌∙◌, inl, inr, arith, Bool, true,
  Option, none, some, ◌==◌, ◌&&◌, if◌then◌else◌, bit_or, field, div-bit_or, mod-bit_or, bit_or-zero,
  length, u64, take, replicate,
}
use native.Mathlib.Decide.{dec_lt}
use kthxvm.Memory.{
  Memory, load, store, write_bytes, write_bytes-Outside, load-store_self, load-store-Apart,
  store-Outside, load-cong, Outside,
}
use kthxvm.Gdt
use kthxvm.LongMode.{
  Sregs, pml4_start, pdpte_start, pde_start, boot_gdt_offset, boot_idt_offset, pde_entry, fill_pde,
  tables, words, descriptor_tables, setup_long_mode,
}

-- How the processor translates an address in long mode, for pages of two megabytes; `none` if an
-- entry is not present, or if the directory entry is of another kind.
pub next_table : ℕ → ℕ
next_table e = field 12 40 e * 2 ^ 12

pub present : ℕ → Bool
present e = field 0 1 e == 1

pub walk : Memory → ℕ → ℕ → Option ℕ
walk m cr3 v =
    let e4 = load 8 m (cr3 + 8 * field 39 9 v) in
    let e3 = load 8 m (next_table e4 + 8 * field 30 9 v) in
    let e2 = load 8 m (next_table e3 + 8 * field 21 9 v) in
    if present e4 && present e3 && present e2 && field 7 1 e3 == 0 && field 7 1 e2 == 1
    then some (field 21 31 e2 * 2 ^ 21 + v % 2 ^ 21)
    else none

pde_entry-sum : (i : ℕ) → i < 512 → pde_entry i ≡ i * 2 ^ 21 + 0x83
unfolding pde_entry
pde_entry-sum i h =
    let x = u64 (u64 (i * 2 ^ 21) + 0x1) in
    let one_left : x % 2 ^ 21 ≡ 1 = omega arith in
    let rest : x / 2 ^ 21 ≡ i = omega arith in
    let low : bit_or (bit_or x 0x2) 0x80 % 2 ^ 21 ≡ 0x83 =
      mod-bit_or 21 (bit_or x 0x2) 0x80 ∙ rw (mod-bit_or 21 x 0x2, one_left) refl in
    let high : bit_or (bit_or x 0x2) 0x80 / 2 ^ 21 ≡ i =
      div-bit_or 21 (bit_or x 0x2) 0x80
      ∙ rw (div-bit_or 21 x 0x2, rest) (bit_or-zero (bit_or i 0) ∙ bit_or-zero i) in
    omega (arith, low, high)

-- The loop writes below the cells that it has not reached, and above nothing.
load-fill_pde_apart :
    (n i k : ℕ) (m : Memory) (b : ℕ)
    → b + k ≤ pde_start + 8 * i
    → load k (fill_pde n i m) b ≡ load k m b
unfolding fill_pde
load-fill_pde_apart zero i k m b h = refl
load-fill_pde_apart (suc n) i k m b h =
    load-fill_pde_apart n (i + 1) k (store 8 m (pde_start + 8 * i) (pde_entry i)) b (omega arith)
    ∙ load-store-Apart 8 k m (pde_start + 8 * i) (pde_entry i) b (inl h)

load-fill_pde :
    (n i j : ℕ) (m : Memory)
    → i ≤ j
    → j < i + n
    → i + n ≤ 512
    → load 8 (fill_pde n i m) (pde_start + 8 * j) ≡ pde_entry j
unfolding fill_pde
load-fill_pde zero i j m le lt top = absurd (omega arith)
load-fill_pde (suc n) i j m le lt top = elim (dec_lt i j) [
  | yes later ↦
      load-fill_pde n (i + 1) j (store 8 m (pde_start + 8 * i) (pde_entry i)) (omega arith)
        (omega arith) (omega arith)
  | no same ↦
      let here : j ≡ i = omega arith in
      rw here (
        load-fill_pde_apart n (i + 1) 8 (store 8 m (pde_start + 8 * i) (pde_entry i))
          (pde_start + 8 * i) (omega arith)
        ∙ load-store_self 8 m (pde_start + 8 * i) (pde_entry i)
        ∙ omega (arith, pde_entry-sum i (omega arith)))
]

-- The three tables, as the processor reads them.
pub record Mapped (m : Memory) : Type 0 where
  pub root : load 8 m pml4_start ≡ pdpte_start + 3
  pub directory : load 8 m pdpte_start ≡ pde_start + 3
  pub pages : (j : ℕ) → j < 512 → load 8 m (pde_start + 8 * j) ≡ j * 2 ^ 21 + 0x83

tables-Mapped : (m : Memory) → Mapped (tables m)
unfolding tables
tables-Mapped m =
    let m1 = store 8 m pml4_start (pdpte_start + 3) in
    let m2 = store 8 m1 pdpte_start (pde_start + 3) in
    record {
      root =
          load-fill_pde_apart 512 0 8 m2 pml4_start (omega arith)
          ∙ load-store-Apart 8 8 m1 pdpte_start (pde_start + 3) pml4_start (inl (omega arith))
          ∙ load-store_self 8 m pml4_start (pdpte_start + 3);
      directory =
          load-fill_pde_apart 512 0 8 m2 pdpte_start (omega arith)
          ∙ load-store_self 8 m1 pdpte_start (pde_start + 3);
      pages = λ j h.
          load-fill_pde 512 0 j m2 (omega arith) (omega arith) (omega arith) ∙ pde_entry-sum j h;
    }

length-gdt_bytes : length (take (length Gdt.table) (words Gdt.table)) ≡ 4
unfolding words Gdt.table
length-gdt_bytes = refl

-- Only the four bytes of the first descriptor and the eight of the IDT are written.
pub descriptor_tables-Outside :
    (m : Memory) (x : ℕ)
    → Outside boot_gdt_offset 4 x
    → Outside boot_idt_offset 8 x
    → descriptor_tables m x ≡ m x
unfolding descriptor_tables
descriptor_tables-Outside m x g i =
    let bytes = take (length Gdt.table) (words Gdt.table) in
    write_bytes-Outside (replicate 8 0) (write_bytes m boot_gdt_offset bytes) boot_idt_offset x i
    ∙ write_bytes-Outside bytes m boot_gdt_offset x (rw length-gdt_bytes g)

pub setup-Mapped : (m : Memory) (s : Sregs) → Mapped (setup_long_mode m s).0
unfolding setup_long_mode
setup-Mapped m s =
    let t = tables-Mapped m in
    let m' = descriptor_tables (tables m) in
    let above : (a : ℕ) → pml4_start ≤ a → load 8 m' a ≡ load 8 (tables m) a = λ a h.
      load-cong 8 m' (tables m) a
        (λ x p q. descriptor_tables-Outside (tables m) x (inr (omega arith)) (inr (omega arith))) in
    record {
      root = above pml4_start (omega arith) ∙ t.root;
      directory = above pdpte_start (omega arith) ∙ t.directory;
      pages = λ j h. above (pde_start + 8 * j) (omega arith) ∙ t.pages j h;
    }

pub walk-Mapped : (m : Memory) (v : ℕ) → Mapped m → v < 2 ^ 30 → walk m pml4_start v ≡ some v
unfolding walk present next_table
walk-Mapped m v p h =
    let j = v / 2 ^ 21 in
    let i4 : field 39 9 v ≡ 0 = omega arith in
    let i3 : field 30 9 v ≡ 0 = omega arith in
    let i2 : field 21 9 v ≡ j = omega arith in
    let e2 = p.pages j (omega arith) in
    let page : field 21 31 (j * 2 ^ 21 + 0x83) ≡ j = omega arith in
    let there : present (j * 2 ^ 21 + 0x83) ≡ true = ground arith in
    let large : (field 7 1 (j * 2 ^ 21 + 0x83) == 1) ≡ true = ground arith in
    rw (i4, p.root, i3, p.directory, i2, e2, page, there, large) (ap some (omega arith))

-- After the setup the processor maps each of the first 2^30 addresses to itself, whatever the
-- memory and the registers held.
pub setup_long_mode-identity :
    (m : Memory) (s : Sregs) (v : ℕ)
    → v < 2 ^ 30
    → let (m', s') = setup_long_mode m s in walk m' s'.cr3 v ≡ some v
unfolding setup_long_mode
setup_long_mode-identity m s v h = walk-Mapped (setup_long_mode m s).0 v (setup-Mapped m s) h

fill_pde-below : (n i : ℕ) (m : Memory) (x : ℕ) → x < pde_start → fill_pde n i m x ≡ m x
unfolding fill_pde
fill_pde-below zero i m x h = refl
fill_pde-below (suc n) i m x h =
    fill_pde-below n (i + 1) (store 8 m (pde_start + 8 * i) (pde_entry i)) x h
    ∙ store-Outside 8 m (pde_start + 8 * i) (pde_entry i) x (inl (omega arith))

tables-below : (m : Memory) (x : ℕ) → x < pml4_start → tables m x ≡ m x
unfolding tables
tables-below m x h =
    let m1 = store 8 m pml4_start (pdpte_start + 3) in
    fill_pde-below 512 0 (store 8 m1 pdpte_start (pde_start + 3)) x (omega arith)
    ∙ store-Outside 8 m1 pdpte_start (pde_start + 3) x (inl (omega arith))
    ∙ store-Outside 8 m pml4_start (pdpte_start + 3) x (inl h)

-- The descriptors of the code, data and task segments are not copied: past its first four bytes,
-- the memory that the GDT register covers is as it was.
pub gdt_not_copied :
    (m : Memory) (s : Sregs) (x : ℕ)
    → (setup_long_mode m s).1.gdt_base + 4 ≤ x
    → x ≤ (setup_long_mode m s).1.gdt_base + (setup_long_mode m s).1.gdt_limit
    → (setup_long_mode m s).0 x ≡ m x
unfolding setup_long_mode Gdt.table
gdt_not_copied m s x lo hi =
    descriptor_tables-Outside (tables m) x (inr lo) (inl (omega arith))
    ∙ tables-below m x (omega arith)
