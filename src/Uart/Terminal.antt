-- ===== src/Uart/Terminal.antt =====
-- uart.h: no access changes whether the port has a terminal.
use kthxvm.Base.{ℕ, Bool, ◌≡◌, refl, List, [], ◌∷◌, u8, replicate, if◌then◌else◌, arith}
use kthxvm.Uart.{
  init, Uart, Key, is_dlab_set, byte, eof, update_irq, read_data, read_register, read,
  write_divisor, receive, write_data, write_register, write, fill, write_stdio,
}

update_irq-has_term : (u : Uart) (junk : ℕ) → (update_irq u junk).0.has_term ≡ u.has_term
unfolding update_irq
update_irq-has_term u junk = ground arith

read_register-has_term :
    (u : Uart) (offset : ℕ) (buf : List ℕ) → (read_register u offset buf).0.has_term ≡ u.has_term
unfolding read_register read_data
read_register-has_term u offset buf = ground arith

pub read-has_term :
    (u : Uart) (junk offset size : ℕ) → (read u junk offset size).0.has_term ≡ u.has_term
unfolding read
read-has_term u junk offset size =
    let buf = replicate size 0 in
    let u' = (read_register u offset buf).0 in
    ground (arith, update_irq-has_term u' junk, read_register-has_term u offset buf)

write_register-has_term :
    (u : Uart) (offset b : ℕ) → (write_register u offset b).0.has_term ≡ u.has_term
unfolding write_register write_data receive
write_register-has_term u offset b = ground arith

write_divisor-has_term :
    (u : Uart) (offset b : ℕ) → (write_divisor u offset b).has_term ≡ u.has_term
unfolding write_divisor
write_divisor-has_term u offset b = ground arith

pub write-has_term :
    (u : Uart) (junk offset b : ℕ) → (write u junk offset b).0.has_term ≡ u.has_term
unfolding write
write-has_term u junk offset b =
    let v = if is_dlab_set u then write_divisor u offset b else u in
    ground (
      arith,
      update_irq-has_term (write_register v offset b).0 junk,
      write_register-has_term v offset b,
      write_divisor-has_term u offset b,
    )

fill-has_term : (keys : List Key) (u : Uart) → (fill u keys).0.has_term ≡ u.has_term
unfolding fill receive
fill-has_term [] u = refl
fill-has_term (eof ∷ keys) u = refl
fill-has_term (byte c ∷ keys) u = ground (arith, fill-has_term keys (receive u (u8 c)))

pub write_stdio-has_term :
    (u : Uart) (junk : ℕ) (keys : List Key) → (write_stdio u junk keys).0.has_term ≡ u.has_term
unfolding write_stdio
write_stdio-has_term u junk keys = ground (
  arith,
  fill-has_term keys u,
  update_irq-has_term u junk,
  update_irq-has_term (fill u keys).0 junk,
)

pub init-has_term : (t : Bool) (rx tx : List ℕ) → (init t rx tx).has_term ≡ t
unfolding init
init-has_term t rx tx = refl
