-- ===== src/Base/Effects.antt =====
-- Failure, and what a device does to the world outside it.
use Prim.Native.Nat.{ℕ}
use mathlib.Core.Path.{◌≡◌, refl, ap}
use mathlib.Core.Bool.{Bool}
use mathlib.Core.Logic.{◌⊎◌, inl, inr}
use mathlib.Core.List.{List, [], ◌∷◌, ◌++◌}

-- `thrown`: an exception leaves the call. `fault`: an access outside of an object, or a division
-- by zero, for which the source has no check.
pub data Error : Type 0 where
  thrown fault : Error

pub data Result {ℓ} (A : Type ℓ) : Type ℓ where
  err : Error → Result A
  ok : A → Result A

infixl 5 ◌>>=◌
-- The rest of a call, which a failure leaves out.
abbrev pub ◌>>=◌ {ℓ κ} : {A : Type ℓ} {B : Type κ} → Result A → (A → Result B) → Result B
err e >>= k = err e
ok a >>= k = k a

-- What is left of a chain that succeeded.
pub ok_of_bind {ℓ κ} :
    {A : Type ℓ} {B : Type κ} (r : Result A) (k : A → Result B) {b : B}
    → (r >>= k) ≡ ok b
    → (a : A) × (r ≡ ok a) × (k a ≡ ok b)
ok_of_bind (err e) k h = cc
ok_of_bind (ok a) k h = (a, refl, h)

pub ok_injective {ℓ} : {A : Type ℓ} {a b : A} → ok a ≡ ok b → a ≡ b
ok_injective {A} {a} h = ap (λ r. value r a) h
  where
    value : Result A → A → A
    value (err e) d = d
    value (ok x) d = x

-- `irq->set_level(b)`, and `term->put(data, size)`.
pub data Effect : Type 0 where
  set_level : Bool → Effect
  put : List ℕ → Effect

-- The bytes that the terminal is given, in order.
abbrev pub output : List Effect → List ℕ
output [] = []
output (set_level b ∷ es) = output es
output (put bytes ∷ es) = bytes ++ output es

pub Result-cases {ℓ} :
    {A : Type ℓ} (r : Result A) → ((a : A) × (r ≡ ok a)) ⊎ ((e : Error) × (r ≡ err e))
Result-cases (ok a) = inl (a, refl)
Result-cases (err e) = inr (e, refl)
