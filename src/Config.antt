-- ===== src/Config.antt =====
-- src/kvm/virtio/blk.h and net.h: the configuration space of a device, which both classes read and
-- write with the same code. The structure comes from the kernel's headers; here it is its bytes.
mod Tests
use kthxvm.Base.{
  ℕ, zero, suc, ◌+◌, ◌≤◌, ◌<◌, ◌^◌, ◌%◌, ◌≡◌, refl, sym, ap, ◌∙◌, ◌⊎◌, inl, inr, ◌||◌, List, [],
  ◌∷◌, length, take, replicate, slice, u32, u64, ltb, if◌then◌else◌, Result, ok, err, fault, arith,
  true, false,
}

pub record Config : Type 0 where
  pub bytes : List ℕ
  pub generation : ℕ

-- The cells from `i` on replaced, up to the end.
abbrev pub overlay : List ℕ → ℕ → List ℕ → List ℕ
overlay [] i ys = []
overlay (x ∷ xs) (suc i) ys = x ∷ overlay xs i ys
overlay (x ∷ xs) zero [] = x ∷ xs
overlay (x ∷ xs) zero (y ∷ ys) = y ∷ overlay xs zero ys

-- The guard adds at 64 bits; where the sum wraps, the copy is outside of the structure.
unfoldable pub read : Config → ℕ → ℕ → Result (List ℕ)
read c offset size =
    if ltb (length c.bytes) (u64 (offset + size))
    then ok (replicate size 0)
    else if ltb (length c.bytes) (offset + size)
    then err fault
    else ok (slice c.bytes offset size)

-- `values` has as many bytes as the exit gives.
unfoldable pub write : Config → List ℕ → ℕ → ℕ → Result Config
write c values offset size =
    if ltb (length c.bytes) (u64 (offset + size))
    then ok c
    else if ltb (length c.bytes) (offset + size) || ltb (length values) size
    then err fault
    else ok (record {
      bytes = overlay c.bytes offset (take size values);
      generation = u32 (c.generation + 1);
    })

length-overlay : (xs ys : List ℕ) (i : ℕ) → length (overlay xs i ys) ≡ length xs
length-overlay [] ys i = refl
length-overlay (x ∷ xs) ys (suc i) = ap suc (length-overlay xs ys i)
length-overlay (x ∷ xs) [] zero = refl
length-overlay (x ∷ xs) (y ∷ ys) zero = ap suc (length-overlay xs ys zero)

length-take : (n : ℕ) (xs : List ℕ) → n ≤ length xs → length (take n xs) ≡ n
length-take zero xs h = refl
length-take (suc n) [] h = absurd (omega arith)
length-take (suc n) (x ∷ xs) h = ap suc (length-take n xs (omega arith))

slice-overlay :
    (xs ys : List ℕ) (i : ℕ)
    → i + length ys ≤ length xs
    → slice (overlay xs i ys) i (length ys) ≡ ys
slice-overlay xs [] i h = refl
slice-overlay [] (y ∷ ys) i h = absurd (omega arith)
slice-overlay (x ∷ xs) (y ∷ ys) (suc i) h = slice-overlay xs (y ∷ ys) i (omega arith)
slice-overlay (x ∷ xs) (y ∷ ys) zero h = ap (◌∷◌ y) (slice-overlay xs ys zero (omega arith))

slice_apart :
    (xs ys : List ℕ) (i o n : ℕ)
    → (o + n ≤ i) ⊎ (i + length ys ≤ o)
    → slice (overlay xs i ys) o n ≡ slice xs o n
slice_apart xs ys i o zero h = refl
slice_apart [] ys i o (suc n) h = refl
slice_apart (x ∷ xs) [] zero o (suc n) h = refl
slice_apart (x ∷ xs) (y ∷ ys) zero zero (suc n) h = absurd (omega arith)
slice_apart (x ∷ xs) (y ∷ ys) zero (suc o) (suc n) h =
    slice_apart xs ys zero o (suc n) (omega arith)
slice_apart (x ∷ xs) ys (suc i) zero (suc n) h =
    ap (◌∷◌ x) (slice_apart xs ys i zero n (omega arith))
slice_apart (x ∷ xs) ys (suc i) (suc o) (suc n) h = slice_apart xs ys i o (suc n) (omega arith)

-- A write of `size` bytes, of at least as many that are given, inside a structure of fewer than
-- 2^64 bytes is what a read of the same bytes gives; reads apart from it give what they gave
-- before, and the generation counts it at 32 bits.
pub read-write :
    (c : Config) (values : List ℕ) (offset size : ℕ)
    → offset + size ≤ length c.bytes
    → length c.bytes < 2 ^ 64
    → size ≤ length values
    → (c' : Config) × (write c values offset size ≡ ok c')
      × (read c' offset size ≡ ok (take size values))
      × (c'.generation ≡ (c.generation + 1) % 2 ^ 32)
      × ((o n : ℕ) → (o + n ≤ offset) ⊎ (offset + size ≤ o) → read c' o n ≡ read c o n)
unfolding read write
read-write c values offset size inside small given =
    let ys = take size values in
    let len : length ys ≡ size = length-take size values given in
    let same = length-overlay c.bytes ys offset in
    let c' : Config = record {
      bytes = overlay c.bytes offset ys;
      generation = u32 (c.generation + 1);
    } in
    let back : slice (overlay c.bytes offset ys) offset size ≡ ys =
      ap (λ (k : ℕ). slice (overlay c.bytes offset ys) offset k) (sym len)
      ∙ slice-overlay c.bytes ys offset (omega arith) in
    (
      c',
      ground arith,
      ground (arith, same, back),
      refl,
      λ o n apart.
          let kept = slice_apart c.bytes ys offset o n (omega arith) in ground (arith, same, kept),
    )

-- An access that ends beyond the structure, without a wrap at 64 bits, is answered with zeros and
-- changes neither the structure nor its generation.
pub beyond_end :
    (c : Config) (values : List ℕ) (offset size : ℕ)
    → length c.bytes < offset + size
    → offset + size < 2 ^ 64
    → (write c values offset size ≡ ok c) × (read c offset size ≡ ok (replicate size 0))
unfolding read write
beyond_end c values offset size out small = (ground arith, ground arith)
