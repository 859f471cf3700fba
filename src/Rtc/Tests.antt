-- ===== src/Rtc/Tests.antt =====
-- device/rtc.h with a time of day.
use kthxvm.Base.{replicate}
use kthxvm.Rtc.{Tm, Rtc}

abbrev clock : Rtc
clock = record { idx = 0; cmos = replicate 128 0 }

-- 31 December 2020, a Thursday, at 23:59:58.
abbrev new_year : Tm
new_year = record {
  tm_sec = 58;
  tm_min = 59;
  tm_hour = 23;
  tm_wday = 4;
  tm_mday = 31;
  tm_mon = 11;
  tm_year = 120;
}
