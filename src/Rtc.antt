-- ===== src/Rtc.antt =====
-- src/kvm/device/rtc.h, the clock `kvm::device::rtc`. The time is what `gmtime` fills in.
pub mod Clock
mod Tests
use kthxvm.Base.{
  ℕ, ◌+◌, ◌-◌, ◌*◌, ◌/◌, ◌%◌, ◌^◌, List, Bool, bit_and, u8, ltb, ◌==◌, if◌then◌else◌, ◌<<<◌, get_or,
  set, replicate, ◌||◌,
}

-- `struct tm`, for years from 1900 on.
pub record Tm : Type 0 where
  pub tm_sec : ℕ
  pub tm_min : ℕ
  pub tm_hour : ℕ
  pub tm_wday : ℕ
  pub tm_mday : ℕ
  pub tm_mon : ℕ
  pub tm_year : ℕ

pub record Rtc : Type 0 where
  pub idx : ℕ
  pub cmos : List ℕ

pub bin2bcd : ℕ → ℕ
bin2bcd val = u8 ((val / 10) <<< 4 + val % 10)

pub read : Rtc → Tm → ℕ → List ℕ
read r tm size =
    let buf = replicate size 0 in
    let year = tm.tm_year + 1900 in
    if r.idx == 0x00
    then set buf 0 (bin2bcd tm.tm_sec)
    else if r.idx == 0x02
    then set buf 0 (bin2bcd tm.tm_min)
    else if r.idx == 0x04
    then set buf 0 (bin2bcd tm.tm_hour)
    else if r.idx == 0x06
    then set buf 0 (bin2bcd (tm.tm_wday + 1))
    else if r.idx == 0x07
    then set buf 0 (bin2bcd tm.tm_mday)
    else if r.idx == 0x08
    then set buf 0 (bin2bcd (tm.tm_mon + 1))
    else if r.idx == 0x09
    then set buf 0 (bin2bcd (year % 100))
    else if r.idx == 0x32
    then set buf 0 (bin2bcd (year / 100))
    else set buf 0 (get_or r.cmos r.idx 0)

-- `byte` is `data[0]`.
pub write : Rtc → ℕ → Rtc
write r byte =
    if r.idx == 0x0c || r.idx == 0x0d then r else record r { cmos = set r.cmos r.idx byte }

-- A `char` that is widened to 64 bits keeps its sign.
pub sign_extend : ℕ → ℕ
sign_extend byte = if ltb byte 128 then byte else 2 ^ 64 - 256 + byte

-- `data[0] & ~(1UL << 7)`, stored in a byte.
pub write_index : Rtc → ℕ → Rtc
write_index r byte = record r { idx = u8 (bit_and (sign_extend byte) (2 ^ 64 - 1 - 2 ^ 7)) }
