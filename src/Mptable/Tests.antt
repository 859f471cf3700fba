-- ===== src/Mptable/Tests.antt =====
-- mptable.h on machines of one, two and four processors.
use kthxvm.Base.{ℕ, ◌+◌, ◌-◌, ◌%◌, ◌≤◌, ◌≡◌, refl, [], ◌∷◌, ◌++◌, length, slice, from_bytes, arith}
use kthxvm.Memory.{Memory, read_bytes, Outside}
use kthxvm.Mptable.{config_table, pointer, mptable_start, setup_mptable, gen_cpu_flag}
use kthxvm.Mptable.Checksum.{total, config_table-checked}
use kthxvm.Mptable.Entries.{read_table, processors, after, read-config_table}
use kthxvm.Mptable.Place.{pointer_at, setup_mptable-placed}

config_table-checked_example :
    (from_bytes (slice (config_table 2) 4 2) ≡ length (config_table 2))
    × (total (config_table 2) % 256 ≡ 0)
    × (total pointer % 256 ≡ 0)
config_table-checked_example = config_table-checked 2 (omega arith)

read-config_table_example : read_table (config_table 4) ≡ processors 4 0 ++ after 4
read-config_table_example = read-config_table 4 (omega arith)

abbrev empty : Memory
empty = λ a. 0

setup_mptable-placed_example :
    (pointer_at 1 % 16 ≡ 0)
    × (pointer_at 1 + 16 ≤ 0xa0000)
    × (read_bytes (setup_mptable empty 1) (pointer_at 1) 16
        ≡ 95 ∷ 77 ∷ 80 ∷ 95 ∷ 0 ∷ 0xfc ∷ 9 ∷ 0 ∷ 1 ∷ 4 ∷ 155 ∷ 0 ∷ 0 ∷ 0 ∷ 0 ∷ 0 ∷ [])
    × ((x : ℕ)
        → Outside mptable_start (pointer_at 1 + 16 - mptable_start) x
        → setup_mptable empty 1 x ≡ empty x)
setup_mptable-placed_example = setup_mptable-placed empty 1 (omega arith)

flags : gen_cpu_flag 0 2 ∷ gen_cpu_flag 1 2 ∷ gen_cpu_flag 2 2 ∷ [] ≡ 3 ∷ 1 ∷ 0 ∷ []
unfolding gen_cpu_flag
flags = refl
