-- ===== src/Ram/Boot.antt =====
-- vm.h: `setup_bootparams`, which tells the guest of its memory and its command line; constants of
-- vm.h and layout.h. The layout of `struct boot_params` comes from the kernel's headers.
use kthxvm.Base.{ℕ, ◌+◌, ◌*◌, List, [], ◌∷◌, ◌++◌, length, replicate}
use kthxvm.Memory.{Memory, store, write_bytes}
use kthxvm.Ram.{E820, e820_table}

abbrev pub zero_page_start : ℕ
zero_page_start = 0x7000

abbrev pub cmdline_start : ℕ
cmdline_start = 0x20000

-- The size of the structure, and where its members are; `entry_len` is the member `size` of an
-- entry of the table, and `e820_ram` its type.
pub record Layout : Type 0 where
  pub size : ℕ
  pub e820_entries : ℕ
  pub table : ℕ
  pub entry_size : ℕ
  pub entry_addr : ℕ
  pub entry_len : ℕ
  pub entry_type : ℕ
  pub e820_ram : ℕ
  pub type_of_loader : ℕ
  pub boot_flag : ℕ
  pub header : ℕ
  pub cmd_line_ptr : ℕ
  pub cmdline_size : ℕ
  pub kernel_alignment : ℕ

-- An assignment to a member: its width, its place and the value.
pub record Assign : Type 0 where
  pub width : ℕ
  pub place : ℕ
  pub value : ℕ

abbrev pub assign : List Assign → Memory → Memory
assign [] m = m
assign (a ∷ rest) m = assign rest (store a.width m (zero_page_start + a.place) a.value)

-- The assignments for the entry number `i` of the table. The counter is zero at first, by the
-- memset, so the number of the entry is what `boot->e820_entries` holds.
unfoldable pub put_entry : Layout → ℕ → E820 → List Assign
put_entry l i e =
    let at = l.table + i * l.entry_size in
    record { width = 8; place = at + l.entry_addr; value = e.addr }
    ∷ record { width = 8; place = at + l.entry_len; value = e.size }
    ∷ record { width = 4; place = at + l.entry_type; value = l.e820_ram }
    ∷ record { width = 1; place = l.e820_entries; value = i + 1 }
    ∷ []

unfoldable pub put_entries : Layout → ℕ → List E820 → List Assign
put_entries l i [] = []
put_entries l i (e ∷ es) = put_entry l i e ++ put_entries l (i + 1) es

unfoldable pub put_header : Layout → ℕ → List Assign
put_header l length' =
    record { width = 1; place = l.type_of_loader; value = 0xff }
    ∷ record { width = 2; place = l.boot_flag; value = 0xaa55 }
    ∷ record { width = 4; place = l.header; value = 0x53726448 }
    ∷ record { width = 4; place = l.cmd_line_ptr; value = cmdline_start }
    ∷ record { width = 4; place = l.cmdline_size; value = length' }
    ∷ record { width = 4; place = l.kernel_alignment; value = 0x1000000 }
    ∷ []

-- `total` is `mem_size()`.
unfoldable pub setup_bootparams : Layout → Memory → List ℕ → ℕ → Memory
setup_bootparams l m cmdline total =
    let cleared = write_bytes m zero_page_start (replicate l.size 0) in
    let line = write_bytes cleared cmdline_start cmdline in
    assign (put_entries l 0 (e820_table total) ++ put_header l (length cmdline)) line
