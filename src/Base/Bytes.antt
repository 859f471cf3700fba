-- ===== src/Base/Bytes.antt =====
-- Numbers as bytes, the lowest first, as on the x86 that the program is for.
use Prim.Native.Nat.{ℕ, zero, suc, ◌+◌, ◌*◌, ◌/◌}
use mathlib.Core.Path.{◌≡◌, refl, ap}
use mathlib.Core.List.{List, [], ◌∷◌}
use kthxvm.Base.Lists.{length}
use kthxvm.Base.Words.{u8}

-- The `n` low bytes of a word, and the number that bytes stand for.
abbrev pub word_bytes : ℕ → ℕ → List ℕ
word_bytes zero v = []
word_bytes (suc n) v = u8 v ∷ word_bytes n (v / 256)

abbrev pub from_bytes : List ℕ → ℕ
from_bytes [] = 0
from_bytes (b ∷ bs) = u8 b + 256 * from_bytes bs

pub length-word_bytes : (n v : ℕ) → length (word_bytes n v) ≡ n
length-word_bytes zero v = refl
length-word_bytes (suc n) v = ap suc (length-word_bytes n (v / 256))
