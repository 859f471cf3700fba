-- ===== src/I8042/Commands.antt =====
-- i8042.h: what a driver sees of the commands.
use kthxvm.Base.{
  ℕ, suc, ◌≡◌, refl, [], ◌∷◌, true, false, arith, bit_and, bit_or, has, replicate, bit_and-zero,
  bit_and-field, bit_at-bit_or, set_level, if◌then◌else◌, get_or-set_self,
}
use kthxvm.I8042.{I8042, pop, push, flush, trigger_irq, read, write_command, write_data, write}
use kthxvm.I8042.Invariant.{IsValid, write-IsValid}

-- A byte pushed on a flushed buffer is the next one popped.
pop-push-flush :
    (k : I8042) (val : ℕ)
    → IsValid k
    → ((pop (push (flush k) val)).1 ≡ val) × ((pop (push (flush k) val)).0.status ≡ 0)
unfolding pop push flush
pop-push-flush k val v = ground (
  arith,
  get_or-set_self k.buffer 0 val 0 (omega arith),
  bit_and-zero (bit_or (bit_and k.status 0) 0x1),
)

read-push-flush :
    (k : I8042) (val size : ℕ)
    → IsValid k
    → (read (push (flush k) val) 0x0 (suc size)).1 ≡ val ∷ replicate size 0
unfolding read
read-push-flush k val size v = rw (pop-push-flush k val v).0

expects_parameter : (s : ℕ) → bit_and (bit_or s 0x8) 0x8 ≡ 0x8
expects_parameter s = omega (arith, bit_and-field 3 1 (bit_or s 0x8), bit_at-bit_or 3 s 0x8)

flushed_status : (s : ℕ) → bit_or (bit_and s 0) 0x8 ≡ 0x8
flushed_status s = rw bit_and-zero

write_control : (k : I8042) (val : ℕ) → (write (write k 0x4 0x60).0 0x0 val).0.control ≡ val
unfolding write write_command write_data flush
write_control k val = ground (arith, flushed_status k.status)

write_outp : (k : I8042) (val : ℕ) → (write (write k 0x4 0xd1).0 0x0 val).0.outp ≡ val
unfolding write write_command write_data flush
write_outp k val = ground (arith, expects_parameter k.status)

read_control : (k : I8042) → (write k 0x4 0x20).0 ≡ push (flush k) k.control
unfolding write write_command
read_control k = refl

read_outp : (k : I8042) → (write k 0x4 0xd0).0 ≡ push (flush k) k.outp
unfolding write write_command
read_outp k = refl

-- After the command that writes the control register, or the output port, and its parameter, the
-- command that reads it back makes the parameter the next data byte, whatever the state was.
pub parameter_roundtrip :
    (k : I8042) (val size : ℕ)
    → IsValid k
    → let control = (write (write k 0x4 0x60).0 0x0 val).0 in
      let outp = (write (write k 0x4 0xd1).0 0x0 val).0 in
      ((read (write control 0x4 0x20).0 0x0 (suc size)).1 ≡ val ∷ replicate size 0)
      × ((read (write outp 0x4 0xd0).0 0x0 (suc size)).1 ≡ val ∷ replicate size 0)
parameter_roundtrip k val size v =
    let c = (write (write k 0x4 0x60).0 0x0 val).0 in
    let o = (write (write k 0x4 0xd1).0 0x0 val).0 in
    let vc = write-IsValid _ 0x0 val (write-IsValid k 0x4 0x60 v) in
    let vo = write-IsValid _ 0x0 val (write-IsValid k 0x4 0xd1 v) in
    (
      rw (read_control c, write_control k val) (read-push-flush c val size vc),
      rw (read_outp o, write_outp k val) (read-push-flush o val size vo),
    )

trigger_flush :
    (k : I8042)
    → trigger_irq (push (flush k) 0xfa)
      ≡ (if has k.control 0x1 then set_level true ∷ set_level false ∷ [] else [])
unfolding trigger_irq push flush
trigger_flush k = refl

push_status : (k : I8042) (val : ℕ) → (push (flush k) val).status ≡ 0x1
unfolding push flush
push_status k val = rw bit_and-zero

flush_status : (k : I8042) → (flush k).status ≡ 0x0
unfolding flush
flush_status k = bit_and-zero k.status

-- A data byte that is no parameter is acknowledged: the line is pulsed if the keyboard interrupt is
-- enabled, and the next data byte is 0xfa. Reading it pulses the line no more.
pub data_acknowledged :
    (k : I8042) (val size : ℕ)
    → IsValid k
    → has k.status 0x8 ≡ false
    → let (k', es) = write k 0x0 val in
      let (k'', buf, es') = read k' 0x0 (suc size) in
      (es ≡ (if has k.control 0x1 then set_level true ∷ set_level false ∷ [] else []))
      × (buf ≡ 0xfa ∷ replicate size 0)
      × (es' ≡ [])
unfolding write write_data read
data_acknowledged k val size v idle =
    let p = pop-push-flush k 0xfa v in rw idle (trigger_flush k, rw p.0, rw p.1)

-- Every command or byte that empties the output buffer clears the whole status: neither the
-- keyboard's enable bit nor the mark of an expected parameter survives.
pub status_lost :
    (k : I8042) (val size : ℕ)
    → IsValid k
    → ((write k 0x4 0x20).0.status ≡ 0x1)
      × ((write k 0x4 0x60).0.status ≡ 0x8)
      × ((read (write k 0x4 0x20).0 0x0 size).0.status ≡ 0x0)
      × ((write k 0x0 val).0.status ≡ (if has k.status 0x8 then 0x0 else 0x1))
unfolding write write_command write_data read
status_lost k val size v = (
  push_status k k.control,
  rw flush_status refl,
  (pop-push-flush k k.control v).1,
  ground (arith, push_status k 0xfa, bit_and-zero k.status),
)
