-- ===== src/I8042/Invariant.antt =====
-- i8042.h: the output buffer and its status bit.
use kthxvm.Base.{
  ℕ, ◌≤◌, ◌<◌, ◌≡◌, List, [], ◌∷◌, true, arith, bit_and, bit_or, has, length, length-set,
  bit_and-zero, bit_and-low, bit_at-bit_or,
}
use kthxvm.I8042.{I8042, init, pop, push, flush, read, write_command, write_data, write}

pub record IsValid (k : I8042) : Type 0 where
  pub room : length k.buffer ≡ 16
  pub order : k.buffer_head ≤ k.buffer_tail
  pub at_most_one : k.buffer_tail ≤ 1
  pub announced : has k.status 0x1 ≡ true → k.buffer_head < k.buffer_tail

pub init-IsValid : (b : List ℕ) → length b ≡ 16 → IsValid (init b)
unfolding init
init-IsValid b h = ground arith

push-flush-IsValid : (k : I8042) (v : ℕ) → IsValid k → IsValid (push (flush k) v)
unfolding push flush
push-flush-IsValid k val v = ground (arith, length-set k.buffer 0 val)

pop-IsValid : (k : I8042) → IsValid k → IsValid (pop k).0
unfolding pop
pop-IsValid k v = ground (arith, bit_and-zero k.status)

-- Expecting a parameter does not announce data.
low_bit : (s : ℕ) → bit_and (bit_or s 0x8) 0x1 ≡ bit_and s 0x1
low_bit s = omega (arith, bit_and-low 1 (bit_or s 0x8), bit_and-low 1 s, bit_at-bit_or 0 s 0x8)

write_command-IsValid : (k : I8042) (cmd : ℕ) → IsValid k → IsValid (write_command k cmd)
unfolding write_command flush
write_command-IsValid k cmd v = ground (
  arith,
  push-flush-IsValid k k.control v,
  push-flush-IsValid k k.outp v,
  low_bit k.status,
  bit_and-zero k.status,
)

write_data-IsValid : (k : I8042) (b : ℕ) → IsValid k → IsValid (write_data k b).0
unfolding write_data
write_data-IsValid k b v = ground (arith, push-flush-IsValid k 0xfa v, bit_and-zero k.status)

-- A guest access to the controller's ports.
pub data Call : Type 0 where
  reads : ℕ → ℕ → Call
  writes : ℕ → ℕ → Call

pub accesses : I8042 → List Call → I8042
accesses k [] = k
accesses k (reads offset size ∷ cs) = accesses (read k offset size).0 cs
accesses k (writes offset b ∷ cs) = accesses (write k offset b).0 cs

pub read-IsValid : (k : I8042) (offset size : ℕ) → IsValid k → IsValid (read k offset size).0
unfolding read
read-IsValid k offset size v = ground (arith, pop-IsValid k v)

pub write-IsValid : (k : I8042) (offset b : ℕ) → IsValid k → IsValid (write k offset b).0
unfolding write
write-IsValid k offset b v = ground (arith, write_command-IsValid k b v, write_data-IsValid k b v)

accesses-IsValid : (cs : List Call) (k : I8042) → IsValid k → IsValid (accesses k cs)
unfolding accesses
accesses-IsValid [] k v = v
accesses-IsValid (reads offset size ∷ cs) k v =
    accesses-IsValid cs (read k offset size).0 (read-IsValid k offset size v)
accesses-IsValid (writes offset b ∷ cs) k v =
    accesses-IsValid cs (write k offset b).0 (write-IsValid k offset b v)

-- From power-on, after any accesses: the buffer keeps its 16 cells, the head does not pass the
-- tail, at most one byte waits, and the status announces data only if a byte waits.
pub accesses-init-IsValid :
    (b : List ℕ) (cs : List Call) → length b ≡ 16 → IsValid (accesses (init b) cs)
accesses-init-IsValid b cs h = accesses-IsValid cs (init b) (init-IsValid b h)
