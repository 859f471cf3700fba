-- ===== src/Gdt/Roundtrip.antt =====
-- gdt.h: a descriptor that is packed and taken apart.
use kthxvm.Base.{
  ℕ, ◌+◌, ◌-◌, ◌*◌, ◌/◌, ◌%◌, ◌^◌, ◌<◌, ◌≡◌, ◌∙◌, arith, bit_and, bit_or, u8, u16, u64, ◌==◌,
  if◌then◌else◌, bit_and-field, bit_and-low, bit_or-fields, bit_or-zero, zero-bit_or, bit_and-zero,
  field, field-bit_and, div-bit_and, field-bit_or,
}
use native.Mathlib.Nat.{mul-div_cancel, one-le-pow}
use kthxvm.Gdt.{
  entry, get_base, get_limit, get_g, get_db, get_l, get_avl, get_p, get_dpl, get_s, get_type,
  segment,
}

-- A mask of one field, and the shift that brings it down.
cut : (j k e : ℕ) → bit_and e ((2 ^ k - 1) * 2 ^ j) / 2 ^ j ≡ field j k e
cut j k e = rw (bit_and-field j k e) (mul-div_cancel (field j k e) (omega (arith, one-le-pow j 2)))

-- The five parts of a descriptor.
record Parts (flags base limit e : ℕ) : Type 0 where
  base_high : field 56 8 e ≡ base / 2 ^ 24
  flags_high : field 52 4 e ≡ flags / 2 ^ 12
  limit_high : field 48 4 e ≡ limit / 2 ^ 16
  flags_low : field 40 8 e ≡ flags % 2 ^ 8
  base_low : field 16 24 e ≡ base % 2 ^ 24
  limit_low : field 0 16 e ≡ limit % 2 ^ 16

field_entry :
    (j k a b c d e : ℕ)
    → field j k (bit_or (bit_or (bit_or (bit_or a b) c) d) e)
      ≡ bit_or
          (bit_or (bit_or (bit_or (field j k a) (field j k b)) (field j k c)) (field j k d))
          (field j k e)
field_entry j k a b c d e = rw (
  field-bit_or j k (bit_or (bit_or (bit_or a b) c) d) e,
  field-bit_or j k (bit_or (bit_or a b) c) d,
  field-bit_or j k (bit_or a b) c,
  field-bit_or j k a b,
)

flag_parts : (f : ℕ) → f < 2 ^ 16 → bit_and f 0xf0ff ≡ f / 2 ^ 12 * 2 ^ 12 + f % 2 ^ 8
flag_parts f h = omega (
  arith,
  field-bit_and 0 8 f 0xf0ff,
  field-bit_and 8 4 f 0xf0ff,
  field-bit_and 12 4 f 0xf0ff,
  div-bit_and 16 f 0xf0ff,
  bit_and-low 8 (field 0 8 f),
  bit_and-zero (field 8 4 f),
  bit_and-low 4 (field 12 4 f),
  bit_and-zero (f / 2 ^ 16),
)

-- The five parts, each shifted to its place.
abbrev joined : ℕ → ℕ → ℕ → ℕ → ℕ → ℕ
joined a b c d e = bit_or (bit_or (bit_or (bit_or a b) c) d) e

pick :
    (j k a b c d e u v w x y : ℕ)
    → field j k a ≡ u
    → field j k b ≡ v
    → field j k c ≡ w
    → field j k d ≡ x
    → field j k e ≡ y
    → field j k (joined a b c d e) ≡ joined u v w x y
pick j k a b c d e u v w x y p q r s t = field_entry j k a b c d e ∙ rw (p, q, r, s, t)

ruleset zeros = (bit_or-zero, zero-bit_or)

joined-Parts :
    (f b l : ℕ)
    → f < 2 ^ 16
    → b < 2 ^ 32
    → l < 2 ^ 20
    → Parts f b l (
        joined
          (b / 2 ^ 24 * 2 ^ 56)
          ((f / 2 ^ 12 * 2 ^ 12 + f % 2 ^ 8) * 2 ^ 40)
          (l / 2 ^ 16 * 2 ^ 48)
          (b % 2 ^ 24 * 2 ^ 16)
          (l % 2 ^ 16))
joined-Parts f b l hf hb hl =
    let A = b / 2 ^ 24 * 2 ^ 56 in
    let B = (f / 2 ^ 12 * 2 ^ 12 + f % 2 ^ 8) * 2 ^ 40 in
    let C = l / 2 ^ 16 * 2 ^ 48 in
    let D = b % 2 ^ 24 * 2 ^ 16 in
    let E = l % 2 ^ 16 in
    record {
      base_high =
          pick 56 8 A B C D E (b / 2 ^ 24) 0 0 0 0 (omega arith) (omega arith) (omega arith)
            (omega arith) (omega arith)
          ∙ simp zeros;
      flags_high =
          pick 52 4 A B C D E 0 (f / 2 ^ 12) 0 0 0 (omega arith) (omega arith) (omega arith)
            (omega arith) (omega arith)
          ∙ simp zeros;
      limit_high =
          pick 48 4 A B C D E 0 0 (l / 2 ^ 16) 0 0 (omega arith) (omega arith) (omega arith)
            (omega arith) (omega arith)
          ∙ simp zeros;
      flags_low =
          pick 40 8 A B C D E 0 (f % 2 ^ 8) 0 0 0 (omega arith) (omega arith) (omega arith)
            (omega arith) (omega arith)
          ∙ simp zeros;
      base_low =
          pick 16 24 A B C D E 0 0 0 (b % 2 ^ 24) 0 (omega arith) (omega arith) (omega arith)
            (omega arith) (omega arith)
          ∙ simp zeros;
      limit_low =
          pick 0 16 A B C D E 0 0 0 0 (l % 2 ^ 16) (omega arith) (omega arith) (omega arith)
            (omega arith) (omega arith)
          ∙ simp zeros;
    }

entry-joined :
    (f b l : ℕ)
    → f < 2 ^ 16
    → b < 2 ^ 32
    → l < 2 ^ 20
    → entry f b l
      ≡ joined
          (b / 2 ^ 24 * 2 ^ 56)
          ((f / 2 ^ 12 * 2 ^ 12 + f % 2 ^ 8) * 2 ^ 40)
          (l / 2 ^ 16 * 2 ^ 48)
          (b % 2 ^ 24 * 2 ^ 16)
          (l % 2 ^ 16)
unfolding entry
entry-joined f b l hf hb hl =
    let a : u64 (bit_and b 0xff000000 * 2 ^ 32) ≡ b / 2 ^ 24 * 2 ^ 56 =
      omega (arith, bit_and-field 24 8 b) in
    let c : u64 (bit_and f 0xf0ff * 2 ^ 40) ≡ (f / 2 ^ 12 * 2 ^ 12 + f % 2 ^ 8) * 2 ^ 40 =
      omega (arith, flag_parts f hf) in
    let d : u64 (bit_and l 0x000f0000 * 2 ^ 32) ≡ l / 2 ^ 16 * 2 ^ 48 =
      omega (arith, bit_and-field 16 4 l) in
    let e : u64 (bit_and b 0x00ffffff * 2 ^ 16) ≡ b % 2 ^ 24 * 2 ^ 16 =
      omega (arith, bit_and-low 24 b) in
    rw (a, c, d, e, bit_and-low 16 l)

entry-Parts : (f b l : ℕ) → f < 2 ^ 16 → b < 2 ^ 32 → l < 2 ^ 20 → Parts f b l (entry f b l)
entry-Parts f b l hf hb hl = rw (entry-joined f b l hf hb hl) (joined-Parts f b l hf hb hl)

get_base-Parts : (f b l e : ℕ) → Parts f b l e → b < 2 ^ 32 → get_base e ≡ b
unfolding get_base
get_base-Parts f b l e p h =
    let high : bit_and e 0xff00000000000000 / 2 ^ 32 ≡ b / 2 ^ 24 * 2 ^ 24 =
      omega (arith, bit_and-field 56 8 e, p) in
    let middle : bit_and e 0x000000ff00000000 / 2 ^ 16 ≡ b / 2 ^ 16 % 2 ^ 8 * 2 ^ 16 =
      omega (arith, bit_and-field 32 8 e, p) in
    let low : bit_and e 0x00000000ffff0000 / 2 ^ 16 ≡ b % 2 ^ 16 =
      omega (arith, bit_and-field 16 16 e, p) in
    let upper : bit_or (b / 2 ^ 24 * 2 ^ 24) (b / 2 ^ 16 % 2 ^ 8 * 2 ^ 16) ≡ b / 2 ^ 16 * 2 ^ 16 =
      bit_or-fields 24 (b / 2 ^ 24) (b / 2 ^ 16 % 2 ^ 8 * 2 ^ 16) (omega arith) ∙ omega arith in
    rw (high, middle, low, upper)
      (bit_or-fields 16 (b / 2 ^ 16) (b % 2 ^ 16) (omega arith) ∙ omega arith)

get_limit-Parts : (f b l e : ℕ) → Parts f b l e → l < 2 ^ 20 → get_limit e ≡ l
unfolding get_limit
get_limit-Parts f b l e p h =
    let high : bit_and e 0x000f000000000000 / 2 ^ 32 ≡ l / 2 ^ 16 * 2 ^ 16 =
      omega (arith, bit_and-field 48 4 e, p) in
    let low : bit_and e 0xffff ≡ l % 2 ^ 16 = omega (arith, bit_and-low 16 e, p) in
    rw (high, low) (omega (arith, bit_or-fields 16 (l / 2 ^ 16) (l % 2 ^ 16) (omega arith)))

selector_fits : (i : ℕ) → i < 256 → u16 (i * 8) ≡ i * 8
selector_fits i h = omega arith

attribute :
    (j k e v : ℕ) → field j k e ≡ v → v < 2 ^ 8 → u8 (bit_and e ((2 ^ k - 1) * 2 ^ j) / 2 ^ j) ≡ v
attribute j k e v p h = rw (cut j k e, p) (omega arith)

-- A descriptor packed from flags, a base of 32 bits and a limit of 20 gives a segment with that
-- base and limit, with each attribute at its place in the flags, and usable exactly if it is
-- present.
pub segment-entry :
    (i f b l : ℕ)
    → i < 256
    → f < 2 ^ 16
    → b < 2 ^ 32
    → l < 2 ^ 20
    → segment i (entry f b l) ≡ record {
      base = b;
      limit = l;
      selector = i * 8;
      type = f % 16;
      present = f / 128 % 2;
      dpl = f / 32 % 4;
      db = f / 2 ^ 14 % 2;
      s = f / 16 % 2;
      l = f / 2 ^ 13 % 2;
      g = f / 2 ^ 15 % 2;
      avl = f / 2 ^ 12 % 2;
      unusable = if f / 128 % 2 == 0 then 1 else 0;
    }
unfolding segment get_type get_p get_dpl get_db get_s get_l get_g get_avl
segment-entry i f b l hi hf hb hl =
    let e = entry f b l in
    let p = entry-Parts f b l hf hb hl in
    let present : get_p e ≡ f / 128 % 2 =
      attribute 47 1 e (f / 128 % 2) (omega (arith, p)) (omega arith) in
    λ t. record {
      base = get_base-Parts f b l e p hb t;
      limit = get_limit-Parts f b l e p hl t;
      selector = selector_fits i hi t;
      type = attribute 40 4 e (f % 16) (omega (arith, p)) (omega arith) t;
      present = present t;
      dpl = attribute 45 2 e (f / 32 % 4) (omega (arith, p)) (omega arith) t;
      db = attribute 54 1 e (f / 2 ^ 14 % 2) (omega (arith, p)) (omega arith) t;
      s = attribute 44 1 e (f / 16 % 2) (omega (arith, p)) (omega arith) t;
      l = attribute 53 1 e (f / 2 ^ 13 % 2) (omega (arith, p)) (omega arith) t;
      g = attribute 55 1 e (f / 2 ^ 15 % 2) (omega (arith, p)) (omega arith) t;
      avl = attribute 52 1 e (f / 2 ^ 12 % 2) (omega (arith, p)) (omega arith) t;
      unusable = if present t == 0 then 1 else 0;
    }
