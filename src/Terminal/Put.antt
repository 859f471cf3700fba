-- ===== src/Terminal/Put.antt =====
-- terminal.h: the bytes that `put` writes.
use kthxvm.Base.{
  ℕ, ◌+◌, ◌*◌, ◌≤◌, ◌<◌, ◌≡◌, refl, ap, Bool-cases, inl, inr, false, some, List, [], ◌∷◌, length,
  ltb, arith,
}
use kthxvm.Memory.{Memory, read_bytes, read_bytes-join, read_bytes-zero}
use kthxvm.Terminal.{Wrote, wrote, failed, put, put_loop}

-- Each call takes at least one byte, and at most the `size` that it is given.
abbrev pub Progress : ℕ → List Wrote → Type 0
Progress size [] = Unit
Progress size (failed ∷ rest) = ⊥
Progress size (wrote n ∷ rest) = (0 < n) × (n ≤ size) × Progress size rest

put_loop_total :
    (area : Memory) (size offset : ℕ) (answers : List Wrote)
    → Progress size answers
    → size ≤ offset + length answers
    → offset < 2 * size
    → (total : ℕ) × (size ≤ offset + total)
      × (offset + total < 2 * size)
      × (put_loop area size offset answers ≡ some (size, read_bytes area offset total))
unfolding put_loop
put_loop_total area size offset [] ok enough below =
    let stop : ltb offset size ≡ false = ground arith in
    (0, omega arith, omega arith, rw (stop, read_bytes-zero area offset) refl)
put_loop_total area size offset (failed ∷ rest) ok enough below = absurd ok
put_loop_total area size offset (wrote n ∷ rest) (some_bytes, fits, ok) enough below =
    elim (Bool-cases (ltb offset size)) [
      | inl less ↦
          let small : offset < size = ground arith in
          let (total, reached, below', result) =
            put_loop_total area size (offset + n) rest ok (omega arith) (omega arith) in
          (
            n + total,
            omega arith,
            omega arith,
            rw (less, result)
                (ap (λ (bs : List ℕ). some (size, bs)) (read_bytes-join area offset n total)),
          )
      | inr more ↦ (0, ground arith, omega arith, rw (more, read_bytes-zero area offset) refl)
    ]

-- If there are bytes to write, and every call of `write` takes at least one and at most what it is
-- given, `put` ends after at most as many calls as there are bytes; it returns their number, and
-- what is written begins with all of them, in order, followed by fewer than as many again.
pub put_total :
    (area : Memory) (size : ℕ) (answers : List Wrote)
    → 0 < size
    → Progress size answers
    → size ≤ length answers
    → (total : ℕ) × (size ≤ total)
      × (total < 2 * size)
      × (put area size answers ≡ some (size, read_bytes area 0 total))
unfolding put
put_total area size answers pos ok enough =
    let (total, reached, below, result) =
      put_loop_total area size 0 answers ok (omega arith) (omega arith) in
    (total, omega arith, omega arith, result)
