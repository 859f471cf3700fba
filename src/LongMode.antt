-- ===== src/LongMode.antt =====
-- src/kvm/regs.h: the page tables, the descriptor tables and the special registers for long mode,
-- and the registers that the first processor starts with; constants of def.h and layout.h.
-- What `get_sregs` returns is an argument, and what is passed to `set_sreg` the result.
pub mod Paging
pub mod Kept
mod Tests
use kthxvm.Base.{
  word_bytes, ℕ, zero, suc, ◌+◌, ◌*◌, ◌-◌, ◌/◌, ◌%◌, ◌^◌, List, [], ◌∷◌, ◌++◌, bit_or, get_or, take,
  length, ◌<<<◌, u64, u8, replicate,
}
use kthxvm.Memory.{Memory, store, write_bytes}
use kthxvm.Gdt
use kthxvm.Gdt.{Segment}

abbrev pub pml4_start : ℕ
pml4_start = 0x9000

abbrev pub pdpte_start : ℕ
pdpte_start = 0xa000

abbrev pub pde_start : ℕ
pde_start = 0xb000

abbrev pub boot_gdt_offset : ℕ
boot_gdt_offset = 0x500

abbrev pub boot_idt_offset : ℕ
boot_idt_offset = 0x520

-- The fields of `struct kvm_sregs` that are set.
pub record Sregs : Type 0 where
  pub cr0 : ℕ
  pub cr3 : ℕ
  pub cr4 : ℕ
  pub efer : ℕ
  pub gdt_base : ℕ
  pub gdt_limit : ℕ
  pub idt_base : ℕ
  pub idt_limit : ℕ
  pub cs : Segment
  pub ds : Segment
  pub es : Segment
  pub fs : Segment
  pub gs : Segment
  pub ss : Segment
  pub tr : Segment

-- `(i << 21) + PDE64_PRESENT | PDE64_RW | PDE64_PS`
pub pde_entry : ℕ → ℕ
pde_entry i = bit_or (bit_or (u64 (u64 (i <<< 21) + 0x1)) 0x2) 0x80

-- `n` more rounds of the loop, from `i` on.
pub fill_pde : ℕ → ℕ → Memory → Memory
fill_pde zero i m = m
fill_pde (suc n) i m = fill_pde n (i + 1) (store 8 m (pde_start + 8 * i) (pde_entry i))

pub tables : Memory → Memory
tables m =
    let m1 = store 8 m pml4_start (bit_or (bit_or pdpte_start 0x1) 0x2) in
    let m2 = store 8 m1 pdpte_start (bit_or (bit_or pde_start 0x1) 0x2) in fill_pde 512 0 m2

-- The bytes of 64-bit words.
pub words : List ℕ → List ℕ
words [] = []
words (w ∷ ws) = word_bytes 8 w ++ words ws

-- `memcpy` of `gdt_table.size()` bytes, which is the number of descriptors, and the empty IDT.
pub descriptor_tables : Memory → Memory
descriptor_tables m =
    let m1 = write_bytes m boot_gdt_offset (take (length Gdt.table) (words Gdt.table)) in
    write_bytes m1 boot_idt_offset (replicate 8 0)

abbrev pub or_all : List ℕ → ℕ
or_all [] = 0
or_all (x ∷ xs) = bit_or x (or_all xs)

pub setup_long_mode : Memory → Sregs → Memory × Sregs
setup_long_mode m sregs =
    let code_seg = Gdt.segment 1 (get_or Gdt.table 1 0) in
    let data_seg = Gdt.segment 2 (get_or Gdt.table 2 0) in
    let tss_seg = Gdt.segment 3 (get_or Gdt.table 3 0) in
    (
      descriptor_tables (tables m),
      record sregs {
        cr0 = or_all (1 ∷ 2 ^ 1 ∷ 2 ^ 4 ∷ 2 ^ 5 ∷ 2 ^ 16 ∷ 2 ^ 18 ∷ 2 ^ 31 ∷ []);
        cr3 = pml4_start;
        cr4 = or_all (2 ^ 5 ∷ 2 ^ 9 ∷ 2 ^ 10 ∷ []);
        efer = or_all (2 ^ 8 ∷ 2 ^ 10 ∷ 1 ∷ []);
        gdt_base = boot_gdt_offset;
        gdt_limit = length Gdt.table * 8 - 1;
        idt_base = boot_idt_offset;
        idt_limit = 8 - 1;
        cs = code_seg;
        ds = data_seg;
        es = data_seg;
        fs = data_seg;
        gs = data_seg;
        ss = data_seg;
        tr = tss_seg;
      },
    )
