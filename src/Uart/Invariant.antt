-- ===== src/Uart/Invariant.antt =====
-- uart.h: what the counters and the line status keep between two calls.
use kthxvm.Base.{
  ℕ, ◌+◌, ◌≤◌, ◌<◌, ◌≡◌, refl, inl, inr, List, [], ◌∷◌, Bool, arith, bit_and, bit_or, u8, ltb, ◌==◌,
  if◌then◌else◌, length, length-set, replicate, Bool-cases,
}
use kthxvm.Uart.{
  Uart, Key, byte, eof, fifo_len, init, is_dlab_set, is_loop, flush_tx, update_irq, read_data,
  read_register, read, write_divisor, write_data, write_register, write, fill, receive, write_stdio,
}

pub record IsValid (u : Uart) : Type 0 where
  pub rx_room : length u.rx_buf ≡ 64
  pub rx_order : u.rx_done ≤ u.rx_cnt
  pub rx_bound : u.rx_cnt ≤ 64
  pub rx_reset : u.rx_done ≡ u.rx_cnt → u.rx_cnt ≡ 0
  pub tx_room : length u.tx_buf ≡ 64
  pub tx_empty : u.tx_cnt ≡ 0
  pub status : u.lsr ≡ (if u.rx_cnt == 0 then 0x60 else 0x61)

-- The line status takes two values, and the masks act on them as follows.
pub record LineStatus (l : ℕ) : Type 0 where
  pub cleared : bit_and l 0xfe ≡ 0x60
  pub filled : bit_or l 0x1 ≡ 0x61
  pub flushed : bit_or l 0x60 ≡ l
  pub no_break : bit_and l 0x10 ≡ 0
  pub idle : bit_and l 0x40 ≡ 0x40
  pub sent : bit_or (bit_and l 0xbf) 0x60 ≡ l
  pub data_bit : l ≡ 0x60 + bit_and l 0x1

pub line_status : (u : Uart) → IsValid u → LineStatus u.lsr
line_status u v = elim (Bool-cases (u.rx_cnt == 0)) [
  | inl e ↦
      rw (v.status, e)
        (record {
          cleared = refl;
          filled = refl;
          flushed = refl;
          no_break = refl;
          idle = refl;
          sent = refl;
          data_bit = refl;
        })
  | inr e ↦
      rw (v.status, e)
        (record {
          cleared = refl;
          filled = refl;
          flushed = refl;
          no_break = refl;
          idle = refl;
          sent = refl;
          data_bit = refl;
        })
]

pub init-IsValid :
    (t : Bool) (rx tx : List ℕ) → length rx ≡ 64 → length tx ≡ 64 → IsValid (init t rx tx)
unfolding init
init-IsValid t rx tx hr ht = ground arith

pub flush_tx-IsValid : (u : Uart) → IsValid u → IsValid (flush_tx u).0
unfolding flush_tx
flush_tx-IsValid u v = ground (arith, line_status u v)

pub update_irq-IsValid : (u : Uart) (junk : ℕ) → IsValid u → IsValid (update_irq u junk).0
unfolding update_irq
update_irq-IsValid u junk v = ground (arith, line_status u v)

read_data-IsValid : (u : Uart) (buf : List ℕ) → IsValid u → IsValid (read_data u buf).0
unfolding read_data
read_data-IsValid u buf v = ground (arith, line_status u v)

read_register-IsValid :
    (u : Uart) (offset : ℕ) (buf : List ℕ) → IsValid u → IsValid (read_register u offset buf).0
unfolding read_register
read_register-IsValid u offset buf v = ground (arith, read_data-IsValid u buf v)

-- A read keeps the invariant.
pub read-IsValid :
    (u : Uart) (junk offset size : ℕ) → IsValid u → IsValid (read u junk offset size).0
unfolding read
read-IsValid u junk offset size v =
    let reg = read_register u offset (replicate size 0) in
    ground
      (arith, update_irq-IsValid reg.0 junk (read_register-IsValid u offset (replicate size 0) v))

pub receive-IsValid : (u : Uart) (b : ℕ) → u.rx_cnt < 64 → IsValid u → IsValid (receive u b)
unfolding receive
receive-IsValid u b room v = ground (arith, line_status u v, length-set u.rx_buf u.rx_cnt b)

write_data-IsValid : (u : Uart) (b : ℕ) → IsValid u → IsValid (write_data u b).0
unfolding write_data is_loop flush_tx
write_data-IsValid u b v =
    ground (arith, line_status u v, receive-IsValid u b, length-set u.tx_buf u.tx_cnt b)

write_register-IsValid :
    (u : Uart) (offset b : ℕ) → IsValid u → IsValid (write_register u offset b).0
unfolding write_register
write_register-IsValid u offset b v = ground (arith, write_data-IsValid u b v)

pub write_divisor-IsValid :
    (u : Uart) (offset b : ℕ) → IsValid u → IsValid (write_divisor u offset b)
unfolding write_divisor
write_divisor-IsValid u offset b v = ground arith

-- A write keeps the invariant.
pub write-IsValid : (u : Uart) (junk offset b : ℕ) → IsValid u → IsValid (write u junk offset b).0
unfolding write
write-IsValid u junk offset b v = elim (Bool-cases (is_dlab_set u)) [
  | inl e ↦
      rw (e, write)
        (update_irq-IsValid _ junk
          (write_register-IsValid _ offset b (write_divisor-IsValid u offset b v)))
  | inr e ↦ rw (e, write) (update_irq-IsValid _ junk (write_register-IsValid u offset b v))
]

-- The loop of `write_stdio` starts on an empty buffer.
pub fill-IsValid : (keys : List Key) (u : Uart) → IsValid u → IsValid (fill u keys).0
unfolding fill
fill-IsValid [] u v = v
fill-IsValid (eof ∷ keys) u v = v
fill-IsValid (byte c ∷ keys) u v = elim (Bool-cases (ltb u.rx_cnt fifo_len)) [
  | inl room ↦
      rw room (fill-IsValid keys (receive u (u8 c)) (receive-IsValid u (u8 c) (ground arith) v))
  | inr full ↦ rw full v
]

pub write_stdio-IsValid :
    (u : Uart) (junk : ℕ) (keys : List Key) → IsValid u → IsValid (write_stdio u junk keys).0
unfolding write_stdio
write_stdio-IsValid u junk keys v = ground (
  arith,
  update_irq-IsValid u junk v,
  update_irq-IsValid (fill u keys).0 junk (fill-IsValid keys u v),
)

-- A guest access or a call from the terminal's thread, with what `tmp_iir` then holds.
pub data Call : Type 0 where
  reads : ℕ → ℕ → ℕ → Call
  writes : ℕ → ℕ → ℕ → Call
  types : ℕ → List Key → Call

pub run : Uart → List Call → Uart
run u [] = u
run u (reads junk offset size ∷ cs) = run (read u junk offset size).0 cs
run u (writes junk offset b ∷ cs) = run (write u junk offset b).0 cs
run u (types junk keys ∷ cs) = run (write_stdio u junk keys).0 cs

run-IsValid : (cs : List Call) (u : Uart) → IsValid u → IsValid (run u cs)
unfolding run
run-IsValid [] u v = v
run-IsValid (reads junk offset size ∷ cs) u v =
    run-IsValid cs (read u junk offset size).0 (read-IsValid u junk offset size v)
run-IsValid (writes junk offset b ∷ cs) u v =
    run-IsValid cs (write u junk offset b).0 (write-IsValid u junk offset b v)
run-IsValid (types junk keys ∷ cs) u v =
    run-IsValid cs (write_stdio u junk keys).0 (write_stdio-IsValid u junk keys v)

-- From a new port, after any accesses and typed input: the buffers keep their 64 cells, the read
-- position is at most the write position, which is at most 64, both are reset when they meet, the
-- transmit buffer is empty, and the line status is 0x61 if received data is left and 0x60 if not.
pub run-init-IsValid :
    (t : Bool) (rx tx : List ℕ) (cs : List Call)
    → length rx ≡ 64
    → length tx ≡ 64
    → IsValid (run (init t rx tx) cs)
run-init-IsValid t rx tx cs hr ht = run-IsValid cs (init t rx tx) (init-IsValid t rx tx hr ht)
