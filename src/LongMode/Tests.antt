-- ===== src/LongMode/Tests.antt =====
-- regs.h on an empty memory.
use kthxvm.Base.{◌≡◌, arith}
use kthxvm.Memory.{Memory}
use kthxvm.Gdt
use kthxvm.Gdt.{Segment}
use kthxvm.LongMode.{Sregs, setup_long_mode}
use kthxvm.LongMode.Paging.{gdt_not_copied}

abbrev no_segment : Segment
no_segment = record {
  base = 0;
  limit = 0;
  selector = 0;
  type = 0;
  present = 0;
  dpl = 0;
  db = 0;
  s = 0;
  l = 0;
  g = 0;
  avl = 0;
  unusable = 0;
}

abbrev reset : Sregs
reset = record {
  cr0 = 0;
  cr3 = 0;
  cr4 = 0;
  efer = 0;
  gdt_base = 0;
  gdt_limit = 0;
  idt_base = 0;
  idt_limit = 0;
  cs = no_segment;
  ds = no_segment;
  es = no_segment;
  fs = no_segment;
  gs = no_segment;
  ss = no_segment;
  tr = no_segment;
}

abbrev empty : Memory
empty = λ a. 0

gdt_not_copied_example : (setup_long_mode empty reset).0 0x508 ≡ 0
unfolding setup_long_mode Gdt.table
gdt_not_copied_example = gdt_not_copied empty reset 0x508 (omega arith) (omega arith)
