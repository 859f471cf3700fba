-- ===== src/Mmio/Features.antt =====
-- mmio.h: which feature bits a driver sees.
use kthxvm.Base.{
  word_bytes, from_bytes, ℕ, ◌/◌, ◌%◌, ◌^◌, ◌<◌, ◌≡◌, ap, ◌∙◌, arith, [], ◌++◌, false, bit_and,
  bit_and-low, Result, ok, ◌>>=◌,
}
use kthxvm.Mmio.{
  Register, Backend, Device, put_word, feature_bits, read_register, write_register, read, write,
  device_features, device_features_sel,
}

word_of_bytes : (v : ℕ) → v < 2 ^ 32 → from_bytes (word_bytes 4 v ++ []) ≡ v
word_of_bytes v h = omega arith

module _ {B : Type 0} (ops : Backend B) (decode : ℕ → Register) (version_1 : ℕ) where
  -- What a driver reads that selects the low or the high word and then reads the feature register.
  pub see_features : Device B → ℕ → ℕ → ℕ → Result ℕ
  see_features d sel features word = do
    (d', es) ← write ops decode version_1 d (word_bytes 8 word) sel 4
    bytes ← read ops decode version_1 d' false features 4
    ok (from_bytes bytes)

  -- A driver sees the low 24 bits of each word of the offered features, and zeros above: a feature
  -- at one of the upper eight bits of a word is never seen.
  pub see_features_lem :
      (d : Device B) (sel features : ℕ)
      → decode sel ≡ device_features_sel
      → decode features ≡ device_features
      → (see_features d sel features 0 ≡ ok (feature_bits ops decode version_1 d.backend % 2 ^ 24))
        × (see_features d sel features 1
            ≡ ok (feature_bits ops decode version_1 d.backend / 2 ^ 32 % 2 ^ 24))
  unfolding see_features write read read_register write_register put_word
  see_features_lem d sel features hs hf =
      let f = feature_bits ops decode version_1 d.backend in
      let low : bit_and (f / 2 ^ 0) 0xffffff ≡ f % 2 ^ 24 =
        bit_and-low 24 (f / 2 ^ 0) ∙ omega arith in
      (
        rw (hs, hf, low) (ap ok (word_of_bytes (f % 2 ^ 24) (omega arith))),
        rw (hs, hf, bit_and-low 24 (f / 2 ^ 32))
            (ap ok (word_of_bytes (f / 2 ^ 32 % 2 ^ 24) (omega arith))),
      )
