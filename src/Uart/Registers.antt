-- ===== src/Uart/Registers.antt =====
-- uart.h: the divisor latch, and the interrupt that `update_irq` reports.
use kthxvm.Base.{
  ℕ, ◌+◌, ◌*◌, ◌/◌, ◌%◌, ◌^◌, ◌<◌, ◌≡◌, ap, ◌≢◌, not, suc, ◌∙◌, [], ◌∷◌, true, false, ◌&&◌, ◌||◌,
  arith, bit_and, bit_or, has, u8, u16, ◌==◌, if◌then◌else◌, replicate, set_level, bit_and-low,
  bit_and-field, bit_or-fields, bit_or_comm,
}
use kthxvm.Uart.{
  Uart, is_dlab_set, flush_tx, pending, raise, update_irq, read, write, write_divisor,
  write_register, write_data, receive,
}
use kthxvm.Uart.Invariant.{IsValid, line_status}

join_bytes :
    (old lo hi : ℕ)
    → lo < 256
    → hi < 256
    → bit_or (bit_and (bit_or (bit_and old 0xff00) (u16 lo)) 0x00ff) (u16 (u16 hi * 2 ^ 8))
      ≡ hi * 256 + lo
join_bytes old lo hi hl hh =
    let q = old / 256 % 256 in
    let lo' : u16 lo ≡ lo = omega arith in
    let hi' : u16 (u16 hi * 2 ^ 8) ≡ hi * 2 ^ 8 = omega arith in
    let kept : bit_and old 0xff00 ≡ q * 2 ^ 8 = bit_and-field 8 8 old in
    let low : bit_and (q * 2 ^ 8 + lo) 0x00ff ≡ lo = bit_and-low 8 (q * 2 ^ 8 + lo) ∙ omega arith in
    rw (lo', hi', kept, bit_or-fields 8 q lo hl, low, bit_or_comm lo (hi * 2 ^ 8))
      (bit_or-fields 8 hi lo hl)

-- What a write keeps or sets of the registers that the divisor latch shares its offsets with.
record Latched (u : Uart) (divisor ier : ℕ) (u' : Uart) : Type 0 where
  lcr_kept : u'.lcr ≡ u.lcr
  divisor_set : u'.baud_divisor ≡ divisor
  ier_set : u'.ier ≡ ier

update_irq-Latched : (u : Uart) (junk : ℕ) → Latched u u.baud_divisor u.ier (update_irq u junk).0
unfolding update_irq
update_irq-Latched u junk = ground arith

write_register-Latched :
    (u : Uart) (lo : ℕ) → Latched u u.baud_divisor u.ier (write_register u 0 lo).0
unfolding write_register write_data receive flush_tx
write_register-Latched u lo = ground arith

write-low :
    (u : Uart) (junk lo : ℕ)
    → is_dlab_set u ≡ true
    → Latched u (bit_or (bit_and u.baud_divisor 0xff00) (u16 lo)) u.ier (write u junk 0 lo).0
unfolding write write_divisor
write-low u junk lo on =
    let u0 = write_divisor u 0 lo in
    let u1 = (write_register u0 0 lo).0 in
    rw (on, write) (ground (arith, write_register-Latched u0 lo, update_irq-Latched u1 junk))

write-high :
    (u : Uart) (junk hi : ℕ)
    → is_dlab_set u ≡ true
    → Latched u
        (bit_or (bit_and u.baud_divisor 0x00ff) (u16 (u16 hi * 2 ^ 8)))
        (bit_and hi 0x0f)
        (write u junk 1 hi).0
unfolding write write_divisor write_register
write-high u junk hi on =
    let u1 = (write_register (write_divisor u 1 hi) 1 hi).0 in
    rw (on, write) (ground (arith, update_irq-Latched u1 junk))

read_divisor :
    (u : Uart) (junk size lo hi : ℕ)
    → is_dlab_set u ≡ true
    → lo < 256
    → hi < 256
    → u.baud_divisor ≡ hi * 256 + lo
    → ((read u junk 0 (suc size)).1 ≡ lo ∷ replicate size 0)
      × ((read u junk 1 (suc size)).1 ≡ hi ∷ replicate size 0)
unfolding read
read_divisor u junk size lo hi on hl hh e =
    let low : u8 u.baud_divisor ≡ lo = omega arith in
    let high : u8 (u.baud_divisor / 2 ^ 8) ≡ hi = omega arith in
    rw (on, read) (ap (λ b. b ∷ replicate size 0) low, ap (λ b. b ∷ replicate size 0) high)

-- With divisor access on, the two bytes written to the divisor latch are read back from it,
-- whatever it held. The write of the high byte also replaces the interrupt enable register.
pub divisor_roundtrip :
    (u : Uart) (junk size lo hi : ℕ)
    → is_dlab_set u ≡ true
    → lo < 256
    → hi < 256
    → let u' = (write (write u junk 0 lo).0 junk 1 hi).0 in
      ((read u' junk 0 (suc size)).1 ≡ lo ∷ replicate size 0)
      × ((read u' junk 1 (suc size)).1 ≡ hi ∷ replicate size 0)
      × (u'.ier ≡ bit_and hi 0x0f)
divisor_roundtrip u junk size lo hi on hl hh =
    let u1 = (write u junk 0 lo).0 in
    let u2 = (write u1 junk 1 hi).0 in
    let w1 = write-low u junk lo on in
    let on1 : is_dlab_set u1 ≡ true =
      unfold is_dlab_set in (rw w1.lcr_kept (unfold is_dlab_set in on)) in
    let w2 = write-high u1 junk hi on1 in
    let on2 : is_dlab_set u2 ≡ true = unfold is_dlab_set in (rw w2.lcr_kept on1) in
    let joined : u2.baud_divisor ≡ hi * 256 + lo =
      w2.divisor_set ∙ rw w1.divisor_set (join_bytes u.baud_divisor lo hi hl hh) in
    let r = read_divisor u2 junk size lo hi on2 hl hh joined in (r.0, r.1, w2.ier_set)

pending-zero :
    (u : Uart)
    → IsValid u
    → pending u 0 ≡ (
        if has u.ier 0x1 && not (u.rx_cnt == 0)
        then (if has u.ier 0x2 then 6 else 4)
        else if has u.ier 0x2
        then 2
        else 0)
unfolding pending
pending-zero u v = ground (arith, line_status u v)

raise-update_irq :
    (u : Uart) (junk : ℕ)
    → IsValid u
    → ((update_irq u junk).0.iir ≡ (raise u (pending u junk)).0.iir)
      × ((update_irq u junk).1 ≡ (raise u (pending u junk)).1)
unfolding update_irq
raise-update_irq u junk v = ground arith

-- With `tmp_iir` zero at the start, the line is pulsed exactly if received data or an idle
-- transmitter is waiting and its interrupt is enabled, and the identification register names the
-- waiting causes, or none.
pub update_irq-reports :
    (u : Uart)
    → IsValid u
    → let recv = has u.ier 0x1 && not (u.rx_cnt == 0) in
      let thr = has u.ier 0x2 in
      let (u', es) = update_irq u 0 in
      (u'.iir ≡ (if recv then (if thr then 6 else 4) else if thr then 2 else 1))
      × (es ≡ (if recv || thr then set_level true ∷ set_level false ∷ [] else set_level false ∷ []))
unfolding raise
update_irq-reports u v = ground (arith, pending-zero u v, raise-update_irq u 0 v)

-- Any other start value of `tmp_iir` in `update_irq` is reported as a cause: with every interrupt
-- disabled the line is pulsed.
pub update_irq_spurious :
    (u : Uart) (junk : ℕ)
    → IsValid u
    → u.ier ≡ 0
    → junk ≢ 0
    → let (u', es) = update_irq u junk in
      (u'.iir ≡ junk) × (es ≡ set_level true ∷ set_level false ∷ [])
unfolding update_irq
update_irq_spurious u junk v off ne =
    let recv_off : bit_and u.ier 0x1 ≡ 0 = rw off in
    let thr_off : bit_and u.ier 0x2 ≡ 0 = rw off in ground (arith, recv_off, thr_off, v)
