-- ===== src/Interrupt/Signals.antt =====
-- interrupt.h: when the eventfd is signalled.
use native.Mathlib.Nat.{add_assoc}
use kthxvm.Base.{
  ℕ, ◌+◌, ◌≡◌, ap, ◌∙◌, ◌↔◌, Bool, true, false, not, ◌&&◌, List, [], ◌∷◌, if◌then◌else◌, arith, ok,
  err, thrown, Effect, put,
}
use kthxvm.Base.{set_level as level_call}
use kthxvm.Interrupt.{Interrupt, set_level, deliver, level}

-- The level that the last call asks for, and the number of changes from low to high.
abbrev pub last_level : Bool → List Effect → Bool
last_level b [] = b
last_level b (put bytes ∷ es) = last_level b es
last_level b (level_call c ∷ es) = last_level c es

abbrev pub rising : Bool → List Effect → ℕ
rising b [] = 0
rising b (put bytes ∷ es) = rising b es
rising b (level_call c ∷ es) = (if not b && c then 1 else 0) + rising c es

module _ (writable : ℕ → Bool) where
  set_level-ok :
      (irq : Interrupt) (c : Bool)
      → writable irq.fd ≡ true
      → set_level writable irq c
        ≡ ok (record irq {
          state = c;
          counter = irq.counter + (if not irq.state && c then 1 else 0);
        })
  unfolding set_level
  set_level-ok irq c w = ground arith

  -- On a writable eventfd, a row of calls leaves the line at the last level that was asked for,
  -- and signals the eventfd once for each change from low to high; nothing else changes.
  pub deliver-signals :
      (es : List Effect) (irq : Interrupt)
      → writable irq.fd ≡ true
      → deliver writable irq es
        ≡ ok (record irq {
          state = last_level (level irq) es;
          counter = irq.counter + rising (level irq) es;
        })
  unfolding deliver level
  deliver-signals [] irq w = ap (λ (n : ℕ). ok (record irq { counter = n })) (omega arith)
  deliver-signals (put bytes ∷ es) irq w = deliver-signals es irq w
  deliver-signals (level_call c ∷ es) irq w =
      let pulse = if not irq.state && c then 1 else 0 in
      rw (set_level-ok irq c w) (
        deliver-signals es (record irq { state = c; counter = irq.counter + pulse }) w
        ∙ ap (λ (n : ℕ). ok (record irq { state = last_level c es; counter = n }))
            (add_assoc irq.counter pulse (rising c es)))

  -- `set_level` throws exactly when it has to signal an eventfd that cannot be written.
  pub set_level_throws :
      (irq : Interrupt) (b : Bool)
      → (set_level writable irq b ≡ err thrown)
        ↔ ((level irq ≡ false) × (b ≡ true) × (writable irq.fd ≡ false))
  unfolding set_level level
  set_level_throws irq b = (λ h. ground arith, λ h. ground arith)
