-- ===== src/Terminal/Tests.antt =====
-- terminal.h on a few answers of the system.
use kthxvm.Base.{ℕ, ◌+◌, ◌*◌, ◌≤◌, ◌<◌, ◌≡◌, refl, some, [], ◌∷◌, arith}
use kthxvm.Memory.{Memory, read_bytes}
use kthxvm.Terminal.{wrote, got, failed_with, put, get}
use kthxvm.Terminal.Put.{put_total}

-- The three bytes 1, 2 and 3 and what stands behind them.
abbrev area : Memory
area = λ a. a + 1

put_total_example :
    (total : ℕ) × (3 ≤ total)
    × (total < 2 * 3)
    × (put area 3 (wrote 1 ∷ wrote 3 ∷ wrote 1 ∷ []) ≡ some (3, read_bytes area 0 total))
put_total_example =
    put_total area 3 (wrote 1 ∷ wrote 3 ∷ wrote 1 ∷ []) (omega arith)
      (omega arith, omega arith, (omega arith, omega arith, (omega arith, omega arith, tt)))
      (omega arith)

retried : get (failed_with 4 ∷ failed_with 11 ∷ got 65 ∷ []) ≡ some (some 65)
unfolding get
retried = refl

other_error : get (failed_with 5 ∷ []) ≡ some (some 0)
unfolding get
other_error = refl
