-- ===== src/Interrupt/Lines.antt =====
-- src/kvm/vm.h: the array `interrupts`, which owns the lines, and `register_irq`. A pointer to a
-- line is the index of its cell, which is the line's number; devices may share one.
use kthxvm.Base.{
  ◌≡◌, ◌≢◌, refl, sym, ap, ◌+◌, zero, suc, true, false, Bool-cases, inl, inr, arith, [], ◌∷◌,
  set_level, ℕ, List, Option, none, some, get_elem?, set, Bool, Result, ok, err, fault, ◌>>=◌,
  ok_of_bind, ok_injective, Effect, replicate,
}
use mathlib.Core.Option.{some-injective}
use kthxvm.Interrupt
use kthxvm.Interrupt.{Interrupt, init, deliver}

abbrev pub Lines : Type 0
Lines = List (Option Interrupt)

abbrev pub no_lines : Lines
no_lines = replicate 32 none

-- `eventfd` is what the constructor of a new line opens; the call that connects it to the kernel
-- succeeds. The index is not checked.
unfoldable pub register_irq : Lines → ℕ → ℕ → Result Lines
register_irq lines num eventfd = elim (get_elem? lines num) [
  | none ↦ err fault
  | some none ↦ ok (set lines num (some (init num eventfd)))
  | some (some irq) ↦ ok lines
]

-- The line that a device's pointer names.
unfoldable pub line : Lines → ℕ → Result Interrupt
line lines num = elim (get_elem? lines num) [
  | none ↦ err fault
  | some none ↦ err fault
  | some (some irq) ↦ ok irq
]

-- The calls that a device makes on its line.
unfoldable pub deliver_to : (ℕ → Bool) → Lines → ℕ → List Effect → Result Lines
deliver_to writable lines num es =
    line lines num >>= λ irq. deliver writable irq es >>= λ irq'. ok (set lines num (some irq'))

set_same :
    (lines : Lines) (n : ℕ) (irq : Interrupt)
    → get_elem? lines n ≡ some (some irq)
    → set lines n (some irq) ≡ lines
set_same [] n irq h = refl
set_same (x ∷ xs) zero irq h =
    ap (λ (y : Option Interrupt). y ∷ xs) (sym (some-injective x (some irq) h))
set_same (x ∷ xs) (suc n) irq h = ap (◌∷◌ x) (set_same xs n irq h)

line_at :
    (lines : Lines) (n : ℕ) {irq : Interrupt}
    → line lines n ≡ ok irq
    → get_elem? lines n ≡ some (some irq)
unfolding line
line_at lines n h = ground arith

get_elem?-set :
    (lines : Lines) (n : ℕ) (irq irq' : Interrupt)
    → get_elem? lines n ≡ some (some irq)
    → get_elem? (set lines n (some irq')) n ≡ some (some irq')
get_elem?-set [] n irq irq' h = cc h
get_elem?-set (x ∷ xs) zero irq irq' h = refl
get_elem?-set (x ∷ xs) (suc n) irq irq' h = get_elem?-set xs n irq irq' h

get_elem?-set_ne :
    (lines : Lines) (n k : ℕ) (irq : Option Interrupt)
    → n ≢ k
    → get_elem? (set lines n irq) k ≡ get_elem? lines k
get_elem?-set_ne [] n k irq h = refl
get_elem?-set_ne (x ∷ xs) zero zero irq h = absurd (h refl)
get_elem?-set_ne (x ∷ xs) zero (suc k) irq h = refl
get_elem?-set_ne (x ∷ xs) (suc n) zero irq h = refl
get_elem?-set_ne (x ∷ xs) (suc n) (suc k) irq h = get_elem?-set_ne xs n k irq (λ e. h (ap suc e))

-- Without a call, the lines stay as they are.
pub deliver_to-nil :
    (writable : ℕ → Bool) (lines : Lines) (n : ℕ) {irq : Interrupt}
    → line lines n ≡ ok irq
    → deliver_to writable lines n [] ≡ ok lines
unfolding deliver_to deliver
deliver_to-nil writable lines n {irq} h = rw h (ap ok (set_same lines n irq (line_at lines n h)))

held :
    (writable : ℕ → Bool) (irq : Interrupt)
    → irq.state ≡ true
    → Interrupt.set_level writable irq true ≡ ok irq
unfolding Interrupt.set_level
held writable irq up = ground arith

raised :
    (writable : ℕ → Bool) (irq : Interrupt)
    → irq.state ≡ false
    → writable irq.fd ≡ true
    → Interrupt.set_level writable irq true
      ≡ ok (record irq { state = true; counter = irq.counter + 1 })
unfolding Interrupt.set_level
raised writable irq down w = rw (down, w) refl

-- A call that raises a line sets its state, and leaves the others.
pub deliver_to-raise :
    (writable : ℕ → Bool) (lines : Lines) (n : ℕ) (irq : Interrupt)
    → line lines n ≡ ok irq
    → writable irq.fd ≡ true
    → (lines' : Lines) × (irq' : Interrupt) × (deliver_to writable lines n (set_level true ∷ [])
        ≡ ok lines')
      × (line lines' n ≡ ok irq')
      × (irq'.state ≡ true)
      × ((k : ℕ) → n ≢ k → line lines' k ≡ line lines k)
unfolding deliver_to deliver line
deliver_to-raise writable lines n irq h w = elim (Bool-cases irq.state) [
  | inl up ↦ (
    lines,
    irq,
    rw (h, held writable irq up) (ap ok (set_same lines n irq (line_at lines n h))),
    h,
    up,
    λ k ne. refl,
  )
  | inr down ↦
      let irq' : Interrupt = record irq { state = true; counter = irq.counter + 1 } in
      let there = get_elem?-set lines n irq irq' (line_at lines n h) in
      (
        set lines n (some irq'),
        irq',
        rw (h, raised writable irq down w) refl,
        rw (line, there) refl,
        refl,
        λ k ne. rw (line, get_elem?-set_ne lines n k (some irq') ne) refl,
      )
]

-- The calls of a device leave the other lines.
pub deliver_to-others :
    (writable : ℕ → Bool) (lines lines' : Lines) (n k : ℕ) (es : List Effect)
    → deliver_to writable lines n es ≡ ok lines'
    → n ≢ k
    → line lines' k ≡ line lines k
unfolding deliver_to line
deliver_to-others writable lines lines' n k es h ne =
    let (irq, at, rest) = ok_of_bind (line lines n) _ h in
    let (irq', made, done) = ok_of_bind (deliver writable irq es) _ rest in
    let same : set lines n (some irq') ≡ lines' = ok_injective done in
    rw (← same) (rw (line, get_elem?-set_ne lines n k (some irq') ne) refl)
