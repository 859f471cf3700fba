-- ===== src/Host/Tests.antt =====
-- A start of the program, main.cpp, on a system that answers everything with its version, 12.
use kthxvm.Base.{
  ℕ, ◌≡◌, refl, List, [], ◌++◌, Option, some, ok, err, thrown, arith, ◌≤◌, ◌*◌, ◌∷◌, ◌==◌, get_or,
  false,
}
use kthxvm.Memory.{Memory, read_bytes}
use kthxvm.Gdt.{Segment}
use kthxvm.LongMode.{Sregs}
use kthxvm.Blk.File.{Stream}
use kthxvm.Elf.{Ehdr, Phdr, load}
use kthxvm.Elf.Segments.{image}
use kthxvm.Elf.Load.{IsElf, segments_of}
use kthxvm.Ram.Boot.{Layout}
use kthxvm.Ram.Fields.{IsOrdered}
use kthxvm.Host.Guest.{IsBootable}
use kthxvm.Host.Boots.{main-boots}
use kthxvm.Host.{Call, Calls}
use kthxvm.Host.Follows.{Bad, refused, other_version, no_size, Follows}
use kthxvm.Host.Start.{Kernel, main}
use kthxvm.Host.Order.{construction_calls, start_calls, boot_memory, main-Follows}
use kthxvm.Host.Answered.{calls_until_load, main-not_loaded}

abbrev no_segment : Segment
no_segment = record {
  base = 0;
  limit = 0;
  selector = 0;
  type = 0;
  present = 0;
  dpl = 0;
  db = 0;
  s = 0;
  l = 0;
  g = 0;
  avl = 0;
  unusable = 0;
}

abbrev reset : Sregs
reset = record {
  cr0 = 0;
  cr3 = 0;
  cr4 = 0;
  efer = 0;
  gdt_base = 0;
  gdt_limit = 0;
  idt_base = 0;
  idt_limit = 0;
  cs = no_segment;
  ds = no_segment;
  es = no_segment;
  fs = no_segment;
  gs = no_segment;
  ss = no_segment;
  tr = no_segment;
}

abbrev zeros : Memory
zeros = λ a. 0

abbrev kernel : Kernel
kernel = record { cpuid = []; lapic = λ i. zeros; sregs = λ i. reset }

abbrev boot_params : Layout
boot_params = record {
  size = 4096;
  e820_entries = 0x1e8;
  table = 0x2d0;
  entry_size = 20;
  entry_addr = 0;
  entry_len = 8;
  entry_type = 16;
  e820_ram = 1;
  type_of_loader = 0x210;
  boot_flag = 0x1fe;
  header = 0x202;
  cmd_line_ptr = 0x228;
  cmdline_size = 0x238;
  kernel_alignment = 0x230;
}

abbrev always : Calls → Call → Option ℕ
always before c = some 12

always_good : (before : Calls) (c : Call) → ¬ Bad always 12 before c
always_good before c (refused b d looked h) = cc
always_good before c (other_version b v h differs) = differs cc
always_good before c (no_size b h) = ground arith

main-Follows_example :
    Follows always 12
      (main always 12 kernel boot_params [] (ok (0x1000000, zeros)))
      (boot_memory kernel boot_params [] zeros)
      (construction_calls ++ start_calls kernel 0x1000000 zeros)
main-Follows_example =
    main-Follows always 12 kernel boot_params [] (ok (0x1000000, zeros)) 0x1000000 zeros refl

main-not_loaded_example :
    main always 12 kernel boot_params [] (err thrown) [] ≡ (err thrown, calls_until_load kernel)
main-not_loaded_example =
    main-not_loaded always 12 always_good kernel boot_params [] (err thrown) refl

ordered : IsOrdered boot_params
ordered = record {
  addr = omega arith;
  len = omega arith;
  type = omega arith;
  counter = omega arith;
  flag = omega arith;
  magic = omega arith;
  loader = omega arith;
  pointer = omega arith;
  alignment = omega arith;
  line = omega arith;
  rows = omega arith;
  page = omega arith;
}

-- A format with headers of five bytes, in which addresses count blocks of 64 KB.
abbrev ehdr : List ℕ → Ehdr
ehdr bs = record {
  is_elf = get_or bs 0 0 == 127;
  entry = get_or bs 1 0 * 0x10000;
  phoff = get_or bs 2 0;
  phentsize = get_or bs 3 0;
  phnum = get_or bs 4 0;
}

abbrev phdr : List ℕ → Phdr
phdr bs = record {
  is_load = get_or bs 0 0 == 1;
  offset = get_or bs 1 0;
  paddr = get_or bs 2 0 * 0x10000;
  filesz = get_or bs 3 0;
  memsz = get_or bs 4 0;
}

-- One segment, of two bytes at 16 MB.
abbrev vmlinux : Stream
vmlinux = record {
  content = λ a. get_or (127 ∷ 128 ∷ 5 ∷ 5 ∷ 1 ∷ 1 ∷ 10 ∷ 128 ∷ 2 ∷ 4 ∷ 77 ∷ 78 ∷ []) a 0;
  size = 12;
  pos = 0;
  failed = false;
}

vmlinux-IsElf : IsElf 5 ehdr 5 phdr vmlinux
unfolding read_bytes
vmlinux-IsElf = record {
  good = refl;
  head = omega arith;
  magic = refl;
  small = omega arith;
  table = omega arith;
  int_size = omega arith;
  entry_size = refl;
}

main-boots_example :
    (m' b : Memory) × (main always 12 kernel boot_params
        (112 ∷ 61 ∷ 49 ∷ [])
        (load 5 ehdr 5 phdr zeros (some vmlinux))
        []
      ≡ (ok b, construction_calls ++ start_calls kernel 0x800000 m'))
    × IsBootable kernel boot_params (112 ∷ 61 ∷ 49 ∷ []) m' b
    × ((x : ℕ)
        → 0x100000 ≤ x
        → b x ≡ image vmlinux.content (segments_of 5 ehdr 5 phdr vmlinux 1 0) x (zeros x))
unfolding read_bytes
main-boots_example =
    main-boots always 12 always_good kernel boot_params (112 ∷ 61 ∷ 49 ∷ []) 5 ehdr 5 phdr zeros
      vmlinux ordered (omega arith) (omega arith) vmlinux-IsElf
      (λ h. (omega arith, omega arith, omega arith, omega arith), tt)
