-- ===== src/Ram/Tests.antt =====
-- vm.h's memory for a machine with 4 GB, and for one with 64 MB.
use kthxvm.Base.{[], ◌∷◌, ◌≡◌, ◌<◌, ◌≤◌, ◌⊎◌, refl, some, arith}
use kthxvm.Ram.{
  create_memory, e820_table, memory_size, ebda_start, himem_start, gap_start, max_mem_size,
}
use kthxvm.Ram.Boot.{Layout, setup_bootparams}
use kthxvm.Ram.Fields.{IsOrdered, read_table, usable_rows}
use kthxvm.Ram.Params.{read_table-setup_bootparams}
use kthxvm.Ram.Map.{translate, e820-create_memory}

e820-create_memory_example :
    (translate (create_memory 0x4000000) 0x200000 ≡ some 0x200000)
    × ((0x200000 < ebda_start) ⊎ (himem_start ≤ 0x200000))
    × ((0x200000 < gap_start) ⊎ (max_mem_size ≤ 0x200000))
unfolding e820_table memory_size
e820-create_memory_example = e820-create_memory 0x4000000 0x200000 (omega arith) (omega arith) refl

-- The layout of the boot protocol of Linux.
abbrev boot_params : Layout
boot_params = record {
  size = 4096;
  e820_entries = 0x1e8;
  table = 0x2d0;
  entry_size = 20;
  entry_addr = 0;
  entry_len = 8;
  entry_type = 16;
  e820_ram = 1;
  type_of_loader = 0x210;
  boot_flag = 0x1fe;
  header = 0x202;
  cmd_line_ptr = 0x228;
  cmdline_size = 0x238;
  kernel_alignment = 0x230;
}

ordered : IsOrdered boot_params
ordered = record {
  addr = omega arith;
  len = omega arith;
  type = omega arith;
  counter = omega arith;
  flag = omega arith;
  magic = omega arith;
  loader = omega arith;
  pointer = omega arith;
  alignment = omega arith;
  line = omega arith;
  rows = omega arith;
  page = omega arith;
}

read_table-setup_bootparams_example :
    read_table boot_params (setup_bootparams boot_params (λ a. 7) (112 ∷ 61 ∷ []) 0x4000000)
    ≡ usable_rows boot_params (e820_table 0x4000000)
read_table-setup_bootparams_example =
    read_table-setup_bootparams boot_params (λ a. 7) (112 ∷ 61 ∷ []) 0x4000000 ordered (omega arith)
