-- ===== src/Interrupt.antt =====
-- src/kvm/interrupt.h, an interrupt line `kvm::interrupt` over an eventfd.
pub mod Signals
pub mod Lines
mod Tests
use kthxvm.Base.{
  ℕ, ◌+◌, Bool, true, false, List, [], ◌∷◌, if◌then◌else◌, Result, ok, err, thrown, Effect, put,
  ◌>>=◌,
}
use kthxvm.Base.{set_level as level_call}

-- `counter` is what has been written to the eventfd.
pub record Interrupt : Type 0 where
  pub number : ℕ
  pub fd : ℕ
  pub state : Bool
  pub counter : ℕ

-- The constructor, on a new eventfd.
abbrev pub init : ℕ → ℕ → Interrupt
init num fd = record { number = num; fd = fd; state = false; counter = 0 }

-- `state == update`
abbrev pub same : Bool → Bool → Bool
same true b = b
same false true = false
same false false = true

-- Whether `write(fd, &value, 8)` succeeds.
module _ (writable : ℕ → Bool) where
  pub set_level : Interrupt → Bool → Result Interrupt
  set_level irq update =
      if same irq.state update
      then ok irq
      else if update
      then (if writable irq.fd
          then ok (record irq { state = true; counter = irq.counter + 1 })
          else err thrown)
      else ok (record irq { state = false })

  -- The calls that a device makes, in order.
  pub deliver : Interrupt → List Effect → Result Interrupt
  deliver irq [] = ok irq
  deliver irq (put bytes ∷ es) = deliver irq es
  deliver irq (level_call b ∷ es) = set_level irq b >>= λ irq'. deliver irq' es

unfoldable pub level : Interrupt → Bool
level irq = irq.state
