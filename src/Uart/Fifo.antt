-- ===== src/Uart/Fifo.antt =====
-- uart.h: the received bytes as a queue, and the bytes that go to the terminal.
use kthxvm.Base.{
  ℕ, zero, suc, ◌+◌, ◌-◌, ◌≤◌, ◌<◌, ◌≡◌, refl, sym, ap, ◌∙◌, inl, inr, List, [], ◌∷◌, ◌++◌, false,
  ◌&&◌, not, arith, has, u8, ltb, ◌==◌, if◌then◌else◌, length, get_or, set, take, replicate,
  Bool-cases, Effect, set_level, put, slice, slice-set_end, slice_step, slice-zero, length-slice,
  output,
}
use mathlib.Core.List.{append_assoc, append-nil}
use kthxvm.Uart.{
  Uart, fifo_len, is_dlab_set, is_loop, flush_tx, update_irq, read_data, read_register, read,
  receive, write_divisor, write_data, write_register, write,
}
use kthxvm.Uart.Invariant.{IsValid, line_status, write_divisor-IsValid, read-IsValid}

-- The bytes that are received and not read, oldest first.
abbrev pub received : Uart → List ℕ
received u = slice u.rx_buf u.rx_done (u.rx_cnt - u.rx_done)

abbrev pub head_or : ℕ → List ℕ → ℕ
head_or d [] = d
head_or d (x ∷ xs) = x

abbrev pub rest : List ℕ → List ℕ
rest [] = []
rest (x ∷ xs) = xs

pub received-receive :
    (u : Uart) (b : ℕ) → IsValid u → u.rx_cnt < 64 → received (receive u b) ≡ received u ++ (b ∷ [])
unfolding receive
received-receive u b v room =
    let grow : u8 (u.rx_cnt + 1) - u.rx_done ≡ suc (u.rx_cnt - u.rx_done) = omega arith in
    rw grow (
      slice-set_end u.rx_buf u.rx_done (u.rx_cnt - u.rx_done) u.rx_cnt b (omega arith)
        (omega arith))

pub received-update_irq : (u : Uart) (junk : ℕ) → received (update_irq u junk).0 ≡ received u
unfolding update_irq
received-update_irq u junk = ground arith

pub received_none : (u : Uart) → u.rx_cnt ≡ u.rx_done → received u ≡ []
received_none u e = let none_left : u.rx_cnt - u.rx_done ≡ 0 = omega arith in rw none_left

received_some :
    (u : Uart)
    → IsValid u
    → u.rx_done < u.rx_cnt
    → received u
      ≡ get_or u.rx_buf u.rx_done 0
        ∷ slice u.rx_buf (u8 (u.rx_done + 1)) (u.rx_cnt - u8 (u.rx_done + 1))
received_some u v lt =
    let next : u8 (u.rx_done + 1) ≡ suc u.rx_done = omega arith in
    let more : u.rx_cnt - u.rx_done ≡ suc (u.rx_cnt - suc u.rx_done) = omega arith in
    rw (next, more) (slice_step u.rx_buf u.rx_done (u.rx_cnt - suc u.rx_done) 0 (omega arith))

-- The received bytes after the call, and the buffer that is returned.
record Popped (u : Uart) (buf : List ℕ) (out : Uart × List ℕ) : Type 0 where
  popped : received out.0 ≡ rest (received u)
  handed : out.1 ≡ (if u.rx_cnt == u.rx_done then buf else set buf 0 (head_or 0 (received u)))

read_data-Popped : (u : Uart) (buf : List ℕ) → IsValid u → Popped u buf (read_data u buf)
unfolding read_data
read_data-Popped u buf v = elim (Bool-cases (u.rx_cnt == u.rx_done)) [
  | inl e ↦ ground (arith, received_none u (ground arith))
  | inr e ↦
      let some_left : u.rx_done < u.rx_cnt = ground arith in
      ground (
        arith,
        line_status u v,
        received_some u v some_left,
        slice-zero u.rx_buf 0,
        slice-zero u.rx_buf (u8 (u.rx_done + 1)),
      )
]

output-flush_tx : (u : Uart) → u.tx_cnt ≡ 0 → output (flush_tx u).1 ≡ []
unfolding flush_tx
output-flush_tx u e = ground arith

output-update_irq : (u : Uart) (junk : ℕ) → u.tx_cnt ≡ 0 → output (update_irq u junk).1 ≡ []
unfolding update_irq
output-update_irq u junk e = ground arith

read_data-register : (u : Uart) (buf : List ℕ) → read_register u 0 buf ≡ read_data u buf
unfolding read_register
read_data-register u buf = refl

read_data-tx_cnt : (u : Uart) (buf : List ℕ) → (read_data u buf).0.tx_cnt ≡ u.tx_cnt
unfolding read_data
read_data-tx_cnt u buf = ground arith

-- A read of the data register, outside of divisor access, takes the oldest received byte off the
-- queue and returns it in the first byte, or returns zero when the queue is empty; nothing is sent.
pub read-pops :
    (u : Uart) (junk size : ℕ)
    → IsValid u
    → is_dlab_set u ≡ false
    → let (u', buf, es) = read u junk 0 (suc size) in
      (received u' ≡ rest (received u))
      × (buf ≡ head_or 0 (received u) ∷ replicate size 0)
      × (output es ≡ [])
unfolding read
read-pops u junk size v off =
    let buf = replicate (suc size) 0 in
    let d = read_data u buf in
    ground (
      arith,
      read_data-register u buf,
      read_data-Popped u buf v,
      received_none u,
      received-update_irq d.0 junk,
      output-update_irq d.0 junk,
      read_data-tx_cnt u buf,
    )

write_data-received :
    (u : Uart) (b : ℕ)
    → IsValid u
    → received (write_data u b).0
      ≡ (if is_loop u && ltb u.rx_cnt fifo_len then received u ++ (b ∷ []) else received u)
unfolding write_data flush_tx
write_data-received u b v = ground (arith, received-receive u b v)

sent_first :
    (buf : List ℕ) (k b : ℕ) → k ≡ 0 → 0 < length buf → take (u8 (k + 1)) (set buf k b) ≡ b ∷ []
sent_first [] k b e h = absurd (omega arith)
sent_first (x ∷ xs) k b e h = let one : u8 (k + 1) ≡ 1 = omega arith in rw (one, e)

write_data-output :
    (u : Uart) (b : ℕ)
    → IsValid u
    → output (write_data u b).1 ≡ (if not (is_loop u) && u.has_term then b ∷ [] else [])
unfolding write_data flush_tx
write_data-output u b v =
    let first : take (u8 (u.tx_cnt + 1)) (set u.tx_buf u.tx_cnt b) ≡ b ∷ [] =
      sent_first u.tx_buf u.tx_cnt b v.tx_empty (omega arith) in
    ground (arith, first)

write_data-tx_cnt : (u : Uart) (b : ℕ) → IsValid u → (write_data u b).0.tx_cnt ≡ 0
unfolding write_data flush_tx receive
write_data-tx_cnt u b v = ground arith

output-append : (xs ys : List Effect) → output (xs ++ ys) ≡ output xs ++ output ys
output-append [] ys = refl
output-append (set_level b ∷ xs) ys = output-append xs ys
output-append (put bytes ∷ xs) ys =
    rw (output-append xs ys) (sym (append_assoc bytes (output xs) (output ys)))

write_data-register : (u : Uart) (b : ℕ) → write_register u 0 b ≡ write_data u b
unfolding write_register
write_data-register u b = refl

-- What a write to the data register leaves: the received bytes, and what the terminal got.
record Written (u : Uart) (b : ℕ) (out : Uart × List Effect) : Type 0 where
  kept :
      received out.0
      ≡ (if is_loop u && ltb u.rx_cnt fifo_len then received u ++ (b ∷ []) else received u)
  sent : output out.1 ≡ (if not (is_loop u) && u.has_term then b ∷ [] else [])

write_data_then_irq :
    (u : Uart) (junk b : ℕ)
    → IsValid u
    → let (u1, es1) = write_data u b in
      let (u2, es2) = update_irq u1 junk in Written u b (u2, es1 ++ es2)
write_data_then_irq u junk b v =
    let d = write_data u b in
    record {
      kept = received-update_irq d.0 junk ∙ write_data-received u b v;
      sent =
          output-append d.1 (update_irq d.0 junk).1
          ∙ ap (◌++◌ (output d.1)) (output-update_irq d.0 junk (write_data-tx_cnt u b v))
          ∙ append-nil (output d.1)
          ∙ write_data-output u b v;
    }

-- A write to the data register sends exactly that byte to the terminal, if the port has one and is
-- not in loopback mode, and otherwise nothing; in loopback mode it is appended to the received
-- bytes while the buffer has room, and otherwise these stay as they are. All this holds whether or
-- not divisor access is on.
pub write_data_lem :
    (u : Uart) (junk b : ℕ)
    → IsValid u
    → let (u', es) = write u junk 0 b in
      (received u'
        ≡ (if is_loop u && ltb u.rx_cnt fifo_len then received u ++ (b ∷ []) else received u))
      × (output es ≡ (if not (is_loop u) && u.has_term then b ∷ [] else []))
unfolding write write_register write_divisor is_loop
write_data_lem u junk b v =
    let u0 = if is_dlab_set u then write_divisor u 0 b else u in
    let same : IsValid u0
        × (received u0 ≡ received u)
        × (u0.has_term ≡ u.has_term)
        × (u0.mcr ≡ u.mcr)
        × (u0.rx_cnt ≡ u.rx_cnt) =
      ground (arith, v, write_divisor-IsValid u 0 b v) in
    let w = write_data_then_irq u0 junk b same.0 in ground (arith, w.kept, w.sent, same)

-- A driver that reads the data register while the line status says that data is there.
pub poll : ℕ → Uart → ℕ → List ℕ
poll zero u junk = []
poll (suc n) u junk =
    let (u1, lsr, es1) = read u junk 5 1 in
    let (u2, buf, es2) = read u1 junk 0 1 in
    let more = head_or 0 buf ∷ poll n u2 junk in if has (head_or 0 lsr) 0x1 then more else []

read_lsr :
    (u : Uart) (junk : ℕ)
    → IsValid u
    → let (u', buf, es) = read u junk 5 1 in
      (buf ≡ u.lsr ∷ []) × (received u' ≡ received u) × (is_dlab_set u' ≡ is_dlab_set u)
unfolding read read_register update_irq is_dlab_set
read_lsr u junk v = ground arith

read_data-dlab : (u : Uart) (junk : ℕ) → is_dlab_set (read u junk 0 1).0 ≡ is_dlab_set u
unfolding read read_register read_data update_irq is_dlab_set
read_data-dlab u junk = ground arith

-- The data bit of the line status is set exactly while something is left to read.
pub has-lsr : (u : Uart) → IsValid u → has u.lsr 0x1 ≡ not (u.rx_cnt == u.rx_done)
has-lsr u v = elim (Bool-cases (u.rx_cnt == 0)) [
  | inl e ↦ rw (v.status, e) (ground arith)
  | inr e ↦ rw (v.status, e) (ground arith)
]

nil_of_length : (xs : List ℕ) → length xs ≤ 0 → xs ≡ []
nil_of_length [] h = refl
nil_of_length (x ∷ xs) h = absurd (omega arith)

cons_of_head : (xs : List ℕ) → 0 < length xs → xs ≡ head_or 0 xs ∷ rest xs
cons_of_head [] h = absurd (omega arith)
cons_of_head (x ∷ xs) h = refl

length-received : (u : Uart) → IsValid u → length (received u) ≡ u.rx_cnt - u.rx_done
length-received u v = length-slice u.rx_buf u.rx_done (u.rx_cnt - u.rx_done) (omega arith)

-- A driver that polls the line status and the data register reads the received bytes, all of them
-- and in the order of their arrival, if it is given a round for each.
pub poll-received :
    (n : ℕ) (u : Uart) (junk : ℕ)
    → IsValid u
    → is_dlab_set u ≡ false
    → length (received u) ≤ n
    → poll n u junk ≡ received u
unfolding poll
poll-received zero u junk v off enough = sym (nil_of_length (received u) enough)
poll-received (suc n) u junk v off enough =
    let u1 = (read u junk 5 1).0 in
    let u2 = (read u1 junk 0 1).0 in
    let v1 : IsValid u1 = read-IsValid u junk 5 1 v in
    let s = read_lsr u junk v in
    let off1 : is_dlab_set u1 ≡ false = s.2 ∙ off in
    let p = read-pops u1 junk 0 v1 off1 in
    let tail_left : received u2 ≡ rest (received u) = p.0 ∙ ap rest s.1 in
    let ih =
      poll-received n u2 junk (read-IsValid u1 junk 0 1 v1) (read_data-dlab u1 junk ∙ off1) in
    elim (Bool-cases (u.rx_cnt == u.rx_done)) [
      | inl e ↦ ground (arith, s, has-lsr u v, received_none u)
      | inr e ↦ ground (
        arith,
        s,
        has-lsr u v,
        p,
        tail_left,
        length-received u v,
        cons_of_head (received u),
        ap length (cons_of_head (received u) (ground (arith, length-received u v))),
        ih,
      )
    ]
