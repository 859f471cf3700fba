-- ===== src/Ram/Params.antt =====
-- vm.h: the guest's view of `setup_bootparams`.
use kthxvm.Base.{
  length-replicate, ℕ, ◌+◌, ◌^◌, ◌%◌, ◌≤◌, ◌<◌, ◌≡◌, ◌∙◌, inl, inr, List, ◌++◌, length, replicate,
  map, arith, ltb, Bool-cases, u8,
}
use kthxvm.Memory.{
  Memory, load, Outside, write_bytes, read_bytes, write_bytes-Outside, read_bytes-write_bytes,
  read_bytes-cong,
}
use kthxvm.Ram.{e820_table, gap_start}
use kthxvm.Ram.Boot.{
  Layout, Assign, assign, put_entry, put_entries, put_header, setup_bootparams, zero_page_start,
  cmdline_start,
}
use kthxvm.Ram.Assigns.{Writes, Within, here, skip, load-assign, Writes-append, assign-Outside}
use kthxvm.Ram.Fields.{IsOrdered, read_table, usable_rows, table_two, table_three}

-- With a layout in the order of the boot protocol and a type RAM below 2^32, whatever the memory
-- held and however much memory the machine has: the guest reads as many entries as the counter
-- says, and they are those of `e820_table`, each of the type RAM.
pub read_table-setup_bootparams :
    (l : Layout) (m : Memory) (cmdline : List ℕ) (total : ℕ)
    → IsOrdered l
    → l.e820_ram < 2 ^ 32
    → read_table l (setup_bootparams l m cmdline total) ≡ usable_rows l (e820_table total)
unfolding setup_bootparams e820_table
read_table-setup_bootparams l m cmdline total o ram = elim (Bool-cases (ltb total gap_start)) [
  | inl small ↦ rw small (
      table_two l (length cmdline) _ o.addr o.len o.type o.counter o.flag o.magic o.loader o.pointer
        o.alignment o.line _ _ (omega arith) (omega arith) (omega arith) (omega arith) ram)
  | inr large ↦ rw large (
      table_three l (length cmdline) _ o.addr o.len o.type o.counter o.flag o.magic o.loader
        o.pointer o.alignment o.line _ _ _ (omega arith) (omega arith) (omega arith) (omega arith)
        (omega arith) (omega arith) ram)
]

-- The members that do not depend on the memory, as the guest reads them.
pub record HasHeader (l : Layout) (m : Memory) (n : ℕ) : Type 0 where
  pub type_of_loader : load 1 m (zero_page_start + l.type_of_loader) ≡ 0xff
  pub boot_flag : load 2 m (zero_page_start + l.boot_flag) ≡ 0xaa55
  pub header : load 4 m (zero_page_start + l.header) ≡ 0x53726448
  pub cmd_line_ptr : load 4 m (zero_page_start + l.cmd_line_ptr) ≡ 0x20000
  pub cmdline_size : load 4 m (zero_page_start + l.cmdline_size) ≡ n
  pub kernel_alignment : load 4 m (zero_page_start + l.kernel_alignment) ≡ 0x1000000

module _ (l : Layout) (n : ℕ) (m : Memory) (before : List Assign)
    (flag : l.boot_flag + 2 ≤ l.header) (magic : l.header + 4 ≤ l.type_of_loader)
    (loader : l.type_of_loader + 1 ≤ l.cmd_line_ptr)
    (pointer : l.cmd_line_ptr + 4 ≤ l.kernel_alignment)
    (alignment : l.kernel_alignment + 4 ≤ l.cmdline_size) (small : n < 2 ^ 32) where
  last :
      (p w v : ℕ)
      → Writes (put_header l n) p w v
      → load w (assign (before ++ put_header l n) m) (zero_page_start + p) ≡ v % 256 ^ w
  last p w v h = load-assign _ m p w v (Writes-append before (put_header l n) p w v h)

  header-HasHeader : HasHeader l (assign (before ++ put_header l n) m) n
  unfolding put_header
  header-HasHeader = record {
    type_of_loader = last _ _ _ (skip 0 (put_header l n) _ _ _ (here _ _ (ground arith)));
    boot_flag = last _ _ _ (skip 1 (put_header l n) _ _ _ (here _ _ (ground arith)));
    header = last _ _ _ (skip 2 (put_header l n) _ _ _ (here _ _ (ground arith)));
    cmd_line_ptr = last _ _ _ (skip 3 (put_header l n) _ _ _ (here _ _ (ground arith)));
    cmdline_size =
        last _ _ _ (skip 4 (put_header l n) _ _ _ (here _ _ (ground arith))) ∙ omega arith;
    kernel_alignment = last _ _ _ (skip 5 (put_header l n) _ _ _ (here _ _ (ground arith)));
  }

module _ (l : Layout) (m : Memory) (cmdline : List ℕ) (total : ℕ) (o : IsOrdered l) where
  params-Within :
      Within (put_entries l 0 (e820_table total) ++ put_header l (length cmdline)) l.size
  unfolding e820_table put_entries put_entry put_header
  params-Within = elim (Bool-cases (ltb total gap_start)) [
    | inl small ↦ rw small (ground arith)
    | inr large ↦ rw large (ground arith)
  ]

  -- Outside the structure and the command line, the memory is as it was.
  pub setup_bootparams-Outside :
      (x : ℕ)
      → Outside zero_page_start l.size x
      → Outside cmdline_start (length cmdline) x
      → setup_bootparams l m cmdline total x ≡ m x
  unfolding setup_bootparams
  setup_bootparams-Outside x out away =
      let cleared = write_bytes m zero_page_start (replicate l.size 0) in
      assign-Outside _ (write_bytes cleared cmdline_start cmdline) l.size x params-Within out
      ∙ write_bytes-Outside cmdline cleared cmdline_start x away
      ∙ write_bytes-Outside (replicate l.size 0) m zero_page_start x
          (omega (arith, length-replicate {A = ℕ} l.size 0))

  line_kept :
      read_bytes (setup_bootparams l m cmdline total) cmdline_start (length cmdline)
      ≡ map u8 cmdline
  unfolding setup_bootparams
  line_kept =
      let cleared = write_bytes m zero_page_start (replicate l.size 0) in
      let line = write_bytes cleared cmdline_start cmdline in
      read_bytes-cong (length cmdline) _ line cmdline_start
        (λ x p q. assign-Outside _ line l.size x params-Within (inr (omega arith)))
      ∙ read_bytes-write_bytes cmdline cleared cmdline_start

  -- With a layout in the order of the boot protocol and a command line of fewer than 2^32 bytes,
  -- whatever the memory held: the guest reads the constants, the address and the length of the
  -- command line in their members, and at that address the bytes of the command line.
  pub setup_bootparams-HasHeader :
      length cmdline < 2 ^ 32
      → HasHeader l (setup_bootparams l m cmdline total) (length cmdline)
        × (read_bytes (setup_bootparams l m cmdline total) cmdline_start (length cmdline)
            ≡ map u8 cmdline)
  unfolding setup_bootparams
  setup_bootparams-HasHeader small = (
    header-HasHeader l (length cmdline) _ (put_entries l 0 (e820_table total)) o.flag o.magic
        o.loader o.pointer o.alignment small,
    line_kept,
  )
