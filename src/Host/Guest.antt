-- ===== src/Host/Guest.antt =====
-- vmm.h: the memory that the guest begins with, after `setup_long_mode`, `setup_bootparams` and
-- `setup_mptable` have all written to it.
use kthxvm.Base.{
  ℕ, zero, suc, ◌+◌, ◌-◌, ◌*◌, ◌^◌, ◌≤◌, ◌<◌, ◌≡◌, refl, sym, ◌∙◌, ap, inl, inr, List, [], ◌∷◌,
  length, map, some, u8, arith,
}
use kthxvm.Memory.{Memory, Outside, load, load-cong, read_bytes, read_bytes-cong}
use kthxvm.LongMode.{setup_long_mode}
use kthxvm.LongMode.Paging.{walk}
use kthxvm.LongMode.Kept.{walk-kept, setup_long_mode-above}
use kthxvm.Ram.{E820, e820_table, memory_size}
use kthxvm.Ram.Boot.{Layout, setup_bootparams, zero_page_start, cmdline_start}
use kthxvm.Ram.Fields.{IsOrdered, read_table, read_row, read_rows, usable_rows, usable_rows-three}
use kthxvm.Ram.Params.{
  HasHeader, setup_bootparams-HasHeader, setup_bootparams-Outside, read_table-setup_bootparams,
}
use kthxvm.Mptable.{setup_mptable}
use kthxvm.Mptable.Place.{pointer_at, setup_mptable-placed}
use kthxvm.Host.Start.{Kernel, cpu_count, memory_bytes}
use kthxvm.Host.Order.{boot_memory}

-- What the guest needs in its memory. `m` is the memory with the loaded kernel.
pub record IsBootable (k : Kernel) (l : Layout) (cmdline : List ℕ) (m b : Memory) : Type 0 where
  pub mapped : (v : ℕ) → v < 2 ^ 30 → walk b (setup_long_mode m (k.sregs 0)).1.cr3 v ≡ some v
  pub header : HasHeader l b (length cmdline)
  pub line : read_bytes b cmdline_start (length cmdline) ≡ map u8 cmdline
  pub table : read_table l b ≡ usable_rows l (e820_table (memory_size memory_bytes))
  pub pointer :
      read_bytes b (pointer_at cpu_count) 16
      ≡ 95 ∷ 77 ∷ 80 ∷ 95 ∷ 0 ∷ 0xfc ∷ 9 ∷ 0 ∷ 1 ∷ 4 ∷ 155 ∷ 0 ∷ 0 ∷ 0 ∷ 0 ∷ 0 ∷ []
  pub image : (x : ℕ) → 0x100000 ≤ x → b x ≡ m x

HasHeader-cong :
    (l : Layout) (m m' : Memory) (n : ℕ)
    → IsOrdered l
    → ((x : ℕ) → x < 0x9000 → m' x ≡ m x)
    → HasHeader l m n
    → HasHeader l m' n
HasHeader-cong l m m' n o same h =
    let at : (w p : ℕ)
        → p + w ≤ 4096
        → load w m' (zero_page_start + p) ≡ load w m (zero_page_start + p) =
      λ w p inside. load-cong w m' m (zero_page_start + p) (λ x a b. same x (omega arith)) in
    let inside : l.cmdline_size + 4 ≤ 4096 = omega arith in
    record {
      type_of_loader = at 1 _ (omega arith) ∙ h.type_of_loader;
      boot_flag = at 2 _ (omega arith) ∙ h.boot_flag;
      header = at 4 _ (omega arith) ∙ h.header;
      cmd_line_ptr = at 4 _ (omega arith) ∙ h.cmd_line_ptr;
      cmdline_size = at 4 _ (omega arith) ∙ h.cmdline_size;
      kernel_alignment = at 4 _ (omega arith) ∙ h.kernel_alignment;
    }

length-read_rows : (l : Layout) (m : Memory) (n i : ℕ) → length (read_rows l m n i) ≡ n
length-read_rows l m zero i = refl
length-read_rows l m (suc n) i = ap suc (length-read_rows l m n (i + 1))

-- A table of three rows is all in the structure.
read_table-cong :
    (l : Layout) (m m' : Memory) (es : List (E820 × ℕ))
    → IsOrdered l
    → ((x : ℕ) → x < 0x9000 → m' x ≡ m x)
    → length es ≡ 3
    → read_table l m ≡ es
    → read_table l m' ≡ es
read_table-cong l m m' es o same three h =
    let at : (w p : ℕ)
        → p + w ≤ 4096
        → load w m' (zero_page_start + p) ≡ load w m (zero_page_start + p) =
      λ w p inside. load-cong w m' m (zero_page_start + p) (λ x a b. same x (omega arith)) in
    let count = load 1 m (zero_page_start + l.e820_entries) in
    let counted : count ≡ 3 = sym (length-read_rows l m count 0) ∙ ap length h ∙ three in
    let row : (i : ℕ)
        → i * l.entry_size + l.entry_size ≤ 3 * l.entry_size
        → read_row l m' (l.table + i * l.entry_size) ≡ read_row l m (l.table + i * l.entry_size) =
      λ i inside.
        rw
          (
            at 8 (l.table + i * l.entry_size + l.entry_addr) (omega arith),
            at 8 (l.table + i * l.entry_size + l.entry_len) (omega arith),
            at 4 (l.table + i * l.entry_size + l.entry_type) (omega arith),
          )
          refl in
    let counted' : load 1 m' (zero_page_start + l.e820_entries) ≡ 3 =
      at 1 l.e820_entries (omega arith) ∙ counted in
    rw (counted', row 0 (omega arith), row 1 (omega arith), row 2 (omega arith))
      (sym (rw counted refl) ∙ h)

pub boot_memory-IsBootable :
    (k : Kernel) (l : Layout) (cmdline : List ℕ) (m : Memory)
    → IsOrdered l
    → l.e820_ram < 2 ^ 32
    → length cmdline ≤ 0x9fc00 - 0x20000
    → IsBootable k l cmdline m (boot_memory k l cmdline m)
boot_memory-IsBootable k l cmdline m o ram fits =
    let s = k.sregs 0 in
    let m1 = (setup_long_mode m s).0 in
    let m2 = setup_bootparams l m1 cmdline (memory_size memory_bytes) in
    let m3 = setup_mptable m2 cpu_count in
    let (aligned, below, magic, rest) = setup_mptable-placed m2 cpu_count (omega arith) in
    let low : (x : ℕ) → x < 0x9fc00 → m3 x ≡ m2 x = λ x h. rest x (inl h) in
    let apart : (x : ℕ)
        → Outside zero_page_start l.size x
        → Outside cmdline_start (length cmdline) x
        → m2 x ≡ m1 x =
      setup_bootparams-Outside l m1 cmdline (memory_size memory_bytes) o in
    let (head, text) =
      setup_bootparams-HasHeader l m1 cmdline (memory_size memory_bytes) o (omega arith) in
    record {
      mapped = λ v h.
          walk-kept m m3 s v
            (λ x a b. low x (omega arith) ∙ apart x (inr (omega arith)) (inl (omega arith))) h;
      header = HasHeader-cong l m2 m3 (length cmdline) o (λ x h. low x (omega arith)) head;
      line =
          read_bytes-cong (length cmdline) m3 m2 cmdline_start (λ x a b. low x (omega arith))
          ∙ text;
      table =
          read_table-cong l m2 m3 _ o (λ x h. low x (omega arith)) (usable_rows-three l)
            (read_table-setup_bootparams l m1 cmdline (memory_size memory_bytes) o ram);
      pointer = magic;
      image = λ x h.
          rest x (inr (omega arith))
          ∙ apart x (inr (omega arith)) (inr (omega arith))
          ∙ setup_long_mode-above m s x (omega arith);
    }
