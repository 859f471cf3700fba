-- ===== src/Base/Slices.antt =====
-- A run of cells of an array: `slice xs i n` is `xs[i], …, xs[i + n - 1]`.
use Prim.Native.Nat.{ℕ, zero, suc, min, ◌+◌, ◌-◌, ◌≤◌, ◌<◌}
use mathlib.Core.Path.{◌≡◌, refl, sym, ap, ◌∙◌}
use mathlib.Core.List.{List, [], ◌∷◌, ◌++◌}
use native.Mathlib.Omega.{arith}
use kthxvm.Base.Lists.{length, get_or, set, take, drop}

module _ {ℓ} {A : Type ℓ} where
  abbrev pub slice : List A → ℕ → ℕ → List A
  slice xs i n = take n (drop i xs)

  -- Writing just past a run extends it.
  pub slice-set_end :
      (xs : List A) (i n j : ℕ) (a : A)
      → j ≡ i + n
      → j < length xs
      → slice (set xs j a) i (suc n) ≡ slice xs i n ++ (a ∷ [])
  slice-set_end [] i n j a e h = absurd (omega arith)
  slice-set_end (x ∷ xs) zero zero zero a e h = refl
  slice-set_end (x ∷ xs) zero zero (suc j) a e h = absurd (omega arith)
  slice-set_end (x ∷ xs) zero (suc n) zero a e h = absurd (omega arith)
  slice-set_end (x ∷ xs) zero (suc n) (suc j) a e h =
      ap (◌∷◌ x) (slice-set_end xs zero n j a (omega arith) (omega arith))
  slice-set_end (x ∷ xs) (suc i) n zero a e h = absurd (omega arith)
  slice-set_end (x ∷ xs) (suc i) n (suc j) a e h =
      slice-set_end xs i n j a (omega arith) (omega arith)

  pub slice_step :
      (xs : List A) (i n : ℕ) (d : A)
      → i < length xs
      → slice xs i (suc n) ≡ get_or xs i d ∷ slice xs (suc i) n
  slice_step [] i n d h = absurd (omega arith)
  slice_step (x ∷ xs) zero n d h = refl
  slice_step (x ∷ xs) (suc i) n d h = slice_step xs i n d (omega arith)

  pub slice-zero : (xs : List A) (i : ℕ) → slice xs i 0 ≡ []
  slice-zero xs i = refl

  pub length-slice : (xs : List A) (i n : ℕ) → i + n ≤ length xs → length (slice xs i n) ≡ n
  length-slice xs i zero h = refl
  length-slice [] i (suc n) h = absurd (omega arith)
  length-slice (x ∷ xs) zero (suc n) h = ap suc (length-slice xs zero n (omega arith))
  length-slice (x ∷ xs) (suc i) (suc n) h = length-slice xs i (suc n) (omega arith)

  pub take-nil : (n : ℕ) → take {A = A} n [] ≡ []
  take-nil zero = refl
  take-nil (suc n) = refl

  pub take-take : (k l : ℕ) (xs : List A) → take (min k l) xs ≡ take l (take k xs)
  take-take zero l [] = take-nil (min 0 l) ∙ sym (take-nil l)
  take-take (suc k) l [] = take-nil (min (suc k) l) ∙ sym (take-nil l)
  take-take zero l (x ∷ xs) =
      let nothing : min 0 l ≡ 0 = omega arith in rw nothing (sym (take-nil l))
  take-take (suc k) zero (x ∷ xs) = let nothing : min (suc k) 0 ≡ 0 = omega arith in rw nothing refl
  take-take (suc k) (suc l) (x ∷ xs) =
      let next : min (suc k) (suc l) ≡ suc (min k l) = omega arith in
      rw next (ap (◌∷◌ x) (take-take k l xs))

  pub drop-nil : (n : ℕ) → drop {A = A} n [] ≡ []
  drop-nil zero = refl
  drop-nil (suc n) = refl

  pub drop-take : (k l : ℕ) (xs : List A) → drop l (take k xs) ≡ take (k - l) (drop l xs)
  drop-take k zero xs = let same : k - 0 ≡ k = omega arith in rw same refl
  drop-take zero (suc l) xs = let nothing : 0 - suc l ≡ 0 = omega arith in rw nothing refl
  drop-take (suc k) (suc l) [] = sym (take-nil (suc k - suc l))
  drop-take (suc k) (suc l) (x ∷ xs) =
      let next : suc k - suc l ≡ k - l = omega arith in rw next (drop-take k l xs)

  pub drop-drop : (i l : ℕ) (xs : List A) → drop l (drop i xs) ≡ drop (i + l) xs
  drop-drop zero l xs = let same : 0 + l ≡ l = omega arith in rw same refl
  drop-drop (suc i) l [] = let next : suc i + l ≡ suc (i + l) = omega arith in rw next (drop-nil l)
  drop-drop (suc i) l (x ∷ xs) =
      let next : suc i + l ≡ suc (i + l) = omega arith in rw next (drop-drop i l xs)

  pub length-take_le : (n : ℕ) (xs : List A) → length (take n xs) ≤ n
  length-take_le zero xs = omega arith
  length-take_le (suc n) [] = omega arith
  length-take_le (suc n) (x ∷ xs) = omega (arith, length-take_le n xs)

  pub length-drop : (n : ℕ) (xs : List A) → length (drop n xs) ≡ length xs - n
  length-drop zero xs = omega arith
  length-drop (suc n) [] = omega arith
  length-drop (suc n) (x ∷ xs) = omega (arith, length-drop n xs)

  pub take-append_length : (xs ys : List A) → take (length xs) (xs ++ ys) ≡ xs
  take-append_length [] ys = refl
  take-append_length (x ∷ xs) ys = ap (◌∷◌ x) (take-append_length xs ys)
