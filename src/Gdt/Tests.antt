-- ===== src/Gdt/Tests.antt =====
-- gdt.h on the descriptor of the code segment.
use kthxvm.Base.{◌≡◌, arith}
use kthxvm.Gdt.{entry, segment}
use kthxvm.Gdt.Roundtrip.{segment-entry}

segment-entry_example : segment 1 (entry 0xa09b 0 0xfffff) ≡ record {
  base = 0;
  limit = 0xfffff;
  selector = 8;
  type = 0xb;
  present = 1;
  dpl = 0;
  db = 0;
  s = 1;
  l = 1;
  g = 1;
  avl = 0;
  unusable = 0;
}
segment-entry_example =
    segment-entry 1 0xa09b 0 0xfffff (omega arith) (omega arith) (omega arith) (omega arith)
