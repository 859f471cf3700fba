-- ===== src/I8042.antt =====
-- src/kvm/device/i8042.h, the keyboard controller `kvm::device::i8042`.
pub mod Invariant
pub mod Commands
mod Tests
use kthxvm.Base.{
  lnot, ℕ, ◌+◌, ◌%◌, Bool, true, false, List, [], ◌∷◌, ◌++◌, bit_and, bit_or, u32, sub32, has, ◌==◌,
  if◌then◌else◌, get_or, set, replicate, Effect, set_level,
}

pub record I8042 : Type 0 where
  pub command : ℕ
  pub status : ℕ
  pub control : ℕ
  pub outp : ℕ
  pub buffer : List ℕ
  pub buffer_head : ℕ
  pub buffer_tail : ℕ

abbrev pub buf_size : ℕ
buf_size = 16

-- The member initialisers. The array is not initialised.
pub init : List ℕ → I8042
init buffer = record {
  command = 0;
  status = 0x10;
  control = bit_or 0x4 0x1;
  outp = 0;
  buffer = buffer;
  buffer_head = 0;
  buffer_tail = 0;
}

pub buffer_len : I8042 → ℕ
buffer_len k = sub32 k.buffer_tail k.buffer_head

pub pop : I8042 → I8042 × ℕ
unfolding buffer_len
pop k =
    let res = get_or k.buffer (k.buffer_head % buf_size) 0 in
    let k' = record k { buffer_head = u32 (k.buffer_head + 1) } in
    if buffer_len k == 0
    then (k, 0)
    else if buffer_len k' == 0
    then (record k' { status = bit_and k.status (lnot 0x1) }, res)
    else (k', res)

pub push : I8042 → ℕ → I8042
unfolding buffer_len
push k val = if buffer_len k == buf_size then k else record k {
  status = bit_or k.status 0x1;
  buffer = set k.buffer (k.buffer_tail % buf_size) val;
  buffer_tail = u32 (k.buffer_tail + 1);
}

pub flush : I8042 → I8042
flush k = record k { buffer_head = 0; buffer_tail = 0; status = bit_and k.status (lnot 0x1) }

pub trigger_irq : I8042 → List Effect
trigger_irq k = if has k.control 0x1 then set_level true ∷ set_level false ∷ [] else []

pub read : I8042 → ℕ → ℕ → I8042 × List ℕ × List Effect
read k offset size =
    let buf = replicate size 0 in
    let (k', res) = pop k in
    let es = if has k'.status 0x1 then trigger_irq k' else [] in
    if offset == 0x04
    then (k, set buf 0 k.status, [])
    else if offset == 0x0
    then (k', set buf 0 res, es)
    else (k, buf, [])

-- The reset of the processor is only printed.
pub write_command : I8042 → ℕ → I8042
write_command k cmd =
    if cmd == 0x20
    then push (flush k) k.control
    else if cmd == 0x60
    then record (flush k) { status = bit_or (flush k).status 0x8; command = cmd }
    else if cmd == 0xd0
    then push (flush k) k.outp
    else if cmd == 0xd1
    then record k { status = bit_or k.status 0x8; command = cmd }
    else if cmd == 0xfe
    then k
    else if cmd == 0xff
    then record k { status = 0x0 }
    else k

-- `case DATA_REG` of `write`.
pub write_data : I8042 → ℕ → I8042 × List Effect
write_data k byte =
    let k' =
      if k.command == 0x60
      then record k { control = byte }
      else if k.command == 0xd1
      then record k { outp = byte }
      else k in
    let acked = push (flush k) 0xfa in
    if has k.status 0x8
    then (record k' { status = bit_and k'.status (lnot 0x8) }, [])
    else (acked, trigger_irq acked)

-- `byte` is `data[0]`, the only byte that is read.
pub write : I8042 → ℕ → ℕ → I8042 × List Effect
write k offset byte =
    if offset == 0x04
    then (write_command k byte, [])
    else if offset == 0x0
    then write_data k byte
    else (k, [])
