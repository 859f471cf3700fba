-- ===== src/Rtc/Clock.antt =====
-- rtc.h: the index stays inside the memory, cells are kept, and the time is in decimal digits.
use kthxvm.Base.{
  ℕ, suc, ◌+◌, ◌-◌, ◌*◌, ◌/◌, ◌%◌, ◌^◌, ◌≤◌, ◌<◌, ◌≡◌, refl, ◌∙◌, ap, ◌∷◌, arith, ◌==◌,
  if◌then◌else◌, Bool, false, ◌||◌, get_or, length, get_or-set_self, replicate, mod-bit_and,
  bit_and-low,
}
use kthxvm.Rtc.{Tm, Rtc, bin2bcd, read, write, sign_extend, write_index}

-- The number that two decimal digits, four bits each, stand for.
abbrev pub from_bcd : ℕ → ℕ
from_bcd b = b / 16 * 10 + b % 16

from_bcd-bin2bcd : (v : ℕ) → v < 100 → from_bcd (bin2bcd v) ≡ v
unfolding bin2bcd
from_bcd-bin2bcd v h = omega arith

low_byte : (b : ℕ) → b < 256 → sign_extend b % 2 ^ 8 ≡ b
unfolding sign_extend
low_byte b h = ground arith

-- The register that an index byte selects is its low seven bits, whatever its sign.
pub write_index_lem : (r : Rtc) (b : ℕ) → b < 256 → (write_index r b).idx ≡ b % 128
unfolding write_index
write_index_lem r b h =
    mod-bit_and 8 (sign_extend b) (2 ^ 64 - 1 - 2 ^ 7) ∙ rw (low_byte b h) (bit_and-low 7 b)

-- The registers that are computed from the time.
abbrev pub is_time : ℕ → Bool
is_time i =
    i == 0x00
    || i == 0x02
    || i == 0x04
    || i == 0x06
    || i == 0x07
    || i == 0x08
    || i == 0x09
    || i == 0x32

read_cell :
    (r : Rtc) (tm : Tm) (size : ℕ)
    → is_time r.idx ≡ false
    → read r tm (suc size) ≡ get_or r.cmos r.idx 0 ∷ replicate size 0
unfolding read
read_cell r tm size h = ground arith

cmos-write_index : (r : Rtc) (b : ℕ) → (write_index r b).cmos ≡ r.cmos
unfolding write_index
cmos-write_index r b = refl

write_cell :
    (r : Rtc) (v : ℕ)
    → r.idx < length r.cmos
    → ((write r v).idx ≡ r.idx)
      × (get_or (write r v).cmos (write r v).idx 0
          ≡ (if r.idx == 0x0c || r.idx == 0x0d then get_or r.cmos r.idx 0 else v))
unfolding write
write_cell r v inside = ground (arith, get_or-set_self r.cmos r.idx v 0 inside)

-- A byte written through the index is read back through it, if the register is neither computed
-- from the time nor one of the two that are read-only; those two keep their byte.
pub cell_roundtrip :
    (r : Rtc) (tm : Tm) (b v size : ℕ)
    → b < 256
    → length r.cmos ≡ 128
    → is_time (b % 128) ≡ false
    → let fixed = b % 128 == 0x0c || b % 128 == 0x0d in
      read (write (write_index r b) v) tm (suc size)
      ≡ (if fixed then get_or r.cmos (b % 128) 0 else v) ∷ replicate size 0
cell_roundtrip r tm b v size hb room cell =
    let r' = write_index r b in
    let idx = write_index_lem r b hb in
    let inside : r'.idx < length r'.cmos = rw (idx, cmos-write_index r b, room) (omega arith) in
    let c = write_cell r' v inside in
    let c' : get_or (write r' v).cmos (write r' v).idx 0 ≡ _ =
      c.1 ∙ rw (idx, cmos-write_index r b) refl in
    read_cell (write r' v) tm size (rw (c.0, idx) cell) ∙ ap (λ x. x ∷ replicate size 0) c'

-- A clock read gives the time in decimal digits: each field of the time of day and of the date,
-- the day of the week and the month counted from one, and the year as its century and its last
-- two digits.
pub read_time :
    (r : Rtc) (tm : Tm) (size : ℕ)
    → tm.tm_sec ≤ 60
    → tm.tm_min < 60
    → tm.tm_hour < 24
    → tm.tm_wday < 7
    → tm.tm_mday < 32
    → tm.tm_mon < 12
    → tm.tm_year < 8100
    → let at = λ (i : ℕ). from_bcd (get_or (read (record r { idx = i }) tm (suc size)) 0 0) in
      (at 0x00 ≡ tm.tm_sec)
      × (at 0x02 ≡ tm.tm_min)
      × (at 0x04 ≡ tm.tm_hour)
      × (at 0x06 ≡ tm.tm_wday + 1)
      × (at 0x07 ≡ tm.tm_mday)
      × (at 0x08 ≡ tm.tm_mon + 1)
      × (at 0x32 * 100 + at 0x09 ≡ tm.tm_year + 1900)
unfolding read
read_time r tm size hs hm hh hw hd ho hy =
    let year = tm.tm_year + 1900 in
    let century = from_bcd-bin2bcd (year / 100) (omega arith) in
    let years = from_bcd-bin2bcd (year % 100) (omega arith) in
    (
      from_bcd-bin2bcd tm.tm_sec (omega arith),
      from_bcd-bin2bcd tm.tm_min (omega arith),
      from_bcd-bin2bcd tm.tm_hour (omega arith),
      from_bcd-bin2bcd (tm.tm_wday + 1) (omega arith),
      from_bcd-bin2bcd tm.tm_mday (omega arith),
      from_bcd-bin2bcd (tm.tm_mon + 1) (omega arith),
      rw (century, years) (omega arith),
    )
