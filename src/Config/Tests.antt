-- ===== src/Config/Tests.antt =====
-- The configuration of a device with eight bytes.
use kthxvm.Base.{ℕ, ◌+◌, ◌%◌, ◌^◌, ◌≤◌, ◌≡◌, [], ◌∷◌, take, ok, ◌⊎◌, arith}
use kthxvm.Config.{Config, read, write, read-write}

abbrev config : Config
config = record { bytes = 1 ∷ 2 ∷ 3 ∷ 4 ∷ 5 ∷ 6 ∷ 7 ∷ 8 ∷ []; generation = 0 }

read-write_example :
    (c' : Config) × (write config (9 ∷ 10 ∷ 11 ∷ 12 ∷ []) 2 2 ≡ ok c')
    × (read c' 2 2 ≡ ok (take 2 (9 ∷ 10 ∷ 11 ∷ 12 ∷ [])))
    × (c'.generation ≡ (0 + 1) % 2 ^ 32)
    × ((o n : ℕ) → (o + n ≤ 2) ⊎ (2 + 2 ≤ o) → read c' o n ≡ read config o n)
read-write_example =
    read-write config (9 ∷ 10 ∷ 11 ∷ 12 ∷ []) 2 2 (omega arith) (omega arith) (omega arith)
