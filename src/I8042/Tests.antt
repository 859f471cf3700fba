-- ===== src/I8042/Tests.antt =====
-- device/i8042.h on a controller that has just been switched on.
use kthxvm.Base.{refl, List, [], ◌∷◌, replicate, arith}
use kthxvm.I8042.{I8042, init}
use kthxvm.I8042.Invariant.{IsValid, Call, reads, writes, accesses, accesses-init-IsValid}

abbrev fresh : I8042
fresh = record {
  command = 0;
  status = 0x10;
  control = 0x5;
  outp = 0;
  buffer = replicate 16 0;
  buffer_head = 0;
  buffer_tail = 0;
}

fresh-IsValid : IsValid fresh
fresh-IsValid = record {
  room = refl;
  order = omega arith;
  at_most_one = omega arith;
  announced = λ e. cc e;
}

abbrev calls : List Call
calls = writes 0x4 0x60 ∷ writes 0x0 0x1 ∷ reads 0x4 1 ∷ writes 0x0 0xf4 ∷ reads 0x0 1 ∷ []

accesses-init-IsValid_example : IsValid (accesses (init (replicate 16 0)) calls)
accesses-init-IsValid_example = accesses-init-IsValid (replicate 16 0) calls refl
