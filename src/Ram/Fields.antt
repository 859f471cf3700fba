-- ===== src/Ram/Fields.antt =====
-- vm.h: what the guest reads in `struct boot_params`.
use kthxvm.Base.{
  ℕ, zero, suc, ◌+◌, ◌*◌, ◌^◌, ◌≤◌, ◌<◌, ◌≡◌, refl, ◌∙◌, List, [], ◌∷◌, ◌++◌, length, arith,
}
use kthxvm.Memory.{Memory, load}
use kthxvm.Ram.{E820, e820_table, memory_size}
use kthxvm.Ram.Boot.{Layout, Assign, assign, put_entry, put_entries, put_header, zero_page_start}
use kthxvm.Ram.Assigns.{Writes, here, skip, load-assign}

-- The order of the members, as the boot protocol has it, in a structure of one page.
pub record IsOrdered (l : Layout) : Type 0 where
  pub addr : l.entry_addr + 8 ≤ l.entry_len
  pub len : l.entry_len + 8 ≤ l.entry_type
  pub type : l.entry_type + 4 ≤ l.entry_size
  pub counter : l.e820_entries + 1 ≤ l.boot_flag
  pub flag : l.boot_flag + 2 ≤ l.header
  pub magic : l.header + 4 ≤ l.type_of_loader
  pub loader : l.type_of_loader + 1 ≤ l.cmd_line_ptr
  pub pointer : l.cmd_line_ptr + 4 ≤ l.kernel_alignment
  pub alignment : l.kernel_alignment + 4 ≤ l.cmdline_size
  pub line : l.cmdline_size + 4 ≤ l.table
  pub rows : l.table + 3 * l.entry_size ≤ l.size
  pub page : l.size ≤ 4096

-- The table as the guest reads it: as many rows as the counter says, each with its type.
abbrev pub read_row : Layout → Memory → ℕ → E820 × ℕ
read_row l m at = (
  record {
    addr = load 8 m (zero_page_start + (at + l.entry_addr));
    size = load 8 m (zero_page_start + (at + l.entry_len));
  },
  load 4 m (zero_page_start + (at + l.entry_type)),
)

abbrev pub read_rows : Layout → Memory → ℕ → ℕ → List (E820 × ℕ)
read_rows l m zero i = []
read_rows l m (suc n) i = read_row l m (l.table + i * l.entry_size) ∷ read_rows l m n (i + 1)

abbrev pub read_table : Layout → Memory → List (E820 × ℕ)
read_table l m = read_rows l m (load 1 m (zero_page_start + l.e820_entries)) 0

abbrev pub usable_rows : Layout → List E820 → List (E820 × ℕ)
usable_rows l [] = []
usable_rows l (e ∷ es) = (e, l.e820_ram) ∷ usable_rows l es

pub usable_rows-three :
    (l : Layout) → length (usable_rows l (e820_table (memory_size (4 * 1024 * 2 ^ 20)))) ≡ 3
unfolding e820_table memory_size
usable_rows-three l = refl

-- A row of the table: its first assignment is the one with the number `at`.
record IsRow (l : Layout) (all : List Assign) (i : ℕ) (e : E820) : Type 0 where
  addr : Writes all (l.table + i * l.entry_size + l.entry_addr) 8 e.addr
  len : Writes all (l.table + i * l.entry_size + l.entry_len) 8 e.size
  type : Writes all (l.table + i * l.entry_size + l.entry_type) 4 l.e820_ram

read_row-IsRow :
    (l : Layout) (all : List Assign) (m : Memory) (i : ℕ) (e : E820)
    → e.addr < 2 ^ 64
    → e.size < 2 ^ 64
    → l.e820_ram < 2 ^ 32
    → IsRow l all i e
    → read_row l (assign all m) (l.table + i * l.entry_size) ≡ (e, l.e820_ram)
read_row-IsRow l all m i e small_addr small_size small_type row =
    let at = l.table + i * l.entry_size in
    let a : load 8 (assign all m) (zero_page_start + (at + l.entry_addr)) ≡ e.addr =
      load-assign all m _ 8 e.addr row.addr ∙ omega arith in
    let b : load 8 (assign all m) (zero_page_start + (at + l.entry_len)) ≡ e.size =
      load-assign all m _ 8 e.size row.len ∙ omega arith in
    let c : load 4 (assign all m) (zero_page_start + (at + l.entry_type)) ≡ l.e820_ram =
      load-assign all m _ 4 l.e820_ram row.type ∙ omega arith in
    rw (a, b, c) refl

module _ (l : Layout) (n : ℕ) (m : Memory) (addr : l.entry_addr + 8 ≤ l.entry_len)
    (len : l.entry_len + 8 ≤ l.entry_type) (type : l.entry_type + 4 ≤ l.entry_size)
    (counter : l.e820_entries + 1 ≤ l.boot_flag) (flag : l.boot_flag + 2 ≤ l.header)
    (magic : l.header + 4 ≤ l.type_of_loader) (loader : l.type_of_loader + 1 ≤ l.cmd_line_ptr)
    (pointer : l.cmd_line_ptr + 4 ≤ l.kernel_alignment)
    (alignment : l.kernel_alignment + 4 ≤ l.cmdline_size)
    (line : l.cmdline_size + 4 ≤ l.table) where
  abbrev pub rows : List E820 → List Assign
  rows es = put_entries l 0 es ++ put_header l n

  count_two : (a b : E820) → Writes (rows (a ∷ b ∷ [])) l.e820_entries 1 2
  unfolding put_entries put_entry put_header
  count_two a b = skip 7 (rows (a ∷ b ∷ [])) _ _ _ (here _ _ (ground arith))

  count_three : (a b c : E820) → Writes (rows (a ∷ b ∷ c ∷ [])) l.e820_entries 1 3
  unfolding put_entries put_entry put_header
  count_three a b c = skip 11 (rows (a ∷ b ∷ c ∷ [])) _ _ _ (here _ _ (ground arith))

  two_first : (a b : E820) → IsRow l (rows (a ∷ b ∷ [])) 0 a
  unfolding put_entries put_entry put_header
  two_first a b = record {
    addr = skip 0 (rows (a ∷ b ∷ [])) _ _ _ (here _ _ (ground arith));
    len = skip 1 (rows (a ∷ b ∷ [])) _ _ _ (here _ _ (ground arith));
    type = skip 2 (rows (a ∷ b ∷ [])) _ _ _ (here _ _ (ground arith));
  }

  two_second : (a b : E820) → IsRow l (rows (a ∷ b ∷ [])) 1 b
  unfolding put_entries put_entry put_header
  two_second a b = record {
    addr = skip 4 (rows (a ∷ b ∷ [])) _ _ _ (here _ _ (ground arith));
    len = skip 5 (rows (a ∷ b ∷ [])) _ _ _ (here _ _ (ground arith));
    type = skip 6 (rows (a ∷ b ∷ [])) _ _ _ (here _ _ (ground arith));
  }

  three_first : (a b c : E820) → IsRow l (rows (a ∷ b ∷ c ∷ [])) 0 a
  unfolding put_entries put_entry put_header
  three_first a b c = record {
    addr = skip 0 (rows (a ∷ b ∷ c ∷ [])) _ _ _ (here _ _ (ground arith));
    len = skip 1 (rows (a ∷ b ∷ c ∷ [])) _ _ _ (here _ _ (ground arith));
    type = skip 2 (rows (a ∷ b ∷ c ∷ [])) _ _ _ (here _ _ (ground arith));
  }

  three_second : (a b c : E820) → IsRow l (rows (a ∷ b ∷ c ∷ [])) 1 b
  unfolding put_entries put_entry put_header
  three_second a b c = record {
    addr = skip 4 (rows (a ∷ b ∷ c ∷ [])) _ _ _ (here _ _ (ground arith));
    len = skip 5 (rows (a ∷ b ∷ c ∷ [])) _ _ _ (here _ _ (ground arith));
    type = skip 6 (rows (a ∷ b ∷ c ∷ [])) _ _ _ (here _ _ (ground arith));
  }

  three_third : (a b c : E820) → IsRow l (rows (a ∷ b ∷ c ∷ [])) 2 c
  unfolding put_entries put_entry put_header
  three_third a b c = record {
    addr = skip 8 (rows (a ∷ b ∷ c ∷ [])) _ _ _ (here _ _ (ground arith));
    len = skip 9 (rows (a ∷ b ∷ c ∷ [])) _ _ _ (here _ _ (ground arith));
    type = skip 10 (rows (a ∷ b ∷ c ∷ [])) _ _ _ (here _ _ (ground arith));
  }

  pub table_two :
      (a b : E820)
      → a.addr < 2 ^ 64
      → a.size < 2 ^ 64
      → b.addr < 2 ^ 64
      → b.size < 2 ^ 64
      → l.e820_ram < 2 ^ 32
      → read_table l (assign (rows (a ∷ b ∷ [])) m) ≡ usable_rows l (a ∷ b ∷ [])
  table_two a b h1 h2 h3 h4 h =
      let all = rows (a ∷ b ∷ []) in
      rw
        (
          load-assign all m l.e820_entries 1 2 (count_two a b),
          read_row-IsRow l all m 0 a h1 h2 h (two_first a b),
          read_row-IsRow l all m 1 b h3 h4 h (two_second a b),
        )
        refl

  pub table_three :
      (a b c : E820)
      → a.addr < 2 ^ 64
      → a.size < 2 ^ 64
      → b.addr < 2 ^ 64
      → b.size < 2 ^ 64
      → c.addr < 2 ^ 64
      → c.size < 2 ^ 64
      → l.e820_ram < 2 ^ 32
      → read_table l (assign (rows (a ∷ b ∷ c ∷ [])) m) ≡ usable_rows l (a ∷ b ∷ c ∷ [])
  table_three a b c h1 h2 h3 h4 h5 h6 h =
      let all = rows (a ∷ b ∷ c ∷ []) in
      rw
        (
          load-assign all m l.e820_entries 1 3 (count_three a b c),
          read_row-IsRow l all m 0 a h1 h2 h (three_first a b c),
          read_row-IsRow l all m 1 b h3 h4 h (three_second a b c),
          read_row-IsRow l all m 2 c h5 h6 h (three_third a b c),
        )
        refl
