-- ===== src/Interrupt/Tests.antt =====
-- interrupt.h on a line whose eventfd can be written, and on one whose eventfd cannot.
use kthxvm.Base.{ℕ, false}
use kthxvm.Interrupt.{Interrupt}

abbrev line : ℕ → Interrupt
line fd = record { number = 4; fd = fd; state = false; counter = 0 }
