-- ===== src/Cpu/Run.antt =====
-- vcpu.h: when `run` comes back.
use kthxvm.Base.{
  ℕ, zero, suc, ◌==◌, ◌≡◌, ◌≢◌, refl, ap, false, none, some, List, ◌∷◌, ◌++◌, replicate, Result, ok,
  err, thrown, if◌then◌else◌, arith,
}
use kthxvm.Cpu.{Answer, done, failed, enter, run}

-- What `run` makes of an answer that is not EAGAIN.
abbrev pub outcome : Answer → List Answer → Result (List Answer)
outcome done rest = ok rest
outcome (failed errno) rest = if errno == 4 then ok rest else err thrown

enter_failed :
    (e : ℕ) (rest : List Answer) → e ≢ 11 → enter (failed e ∷ rest) ≡ some (outcome (failed e) rest)
unfolding enter
enter_failed e rest ne = ground arith

-- Without single steps: after any number of answers EAGAIN, the first other one ends the loop. A
-- return from the guest and EINTR give the processor's exit, every other error throws, and nothing
-- after it is asked for. While there is EAGAIN alone, the loop goes on.
pub run-first :
    (n : ℕ) (a : Answer) (rest : List Answer)
    → a ≢ failed 11
    → (run false done (replicate n (failed 11) ++ a ∷ rest) ≡ some (outcome a rest))
      × (run false done (replicate n (failed 11)) ≡ none)
unfolding run enter
run-first zero done rest other = (refl, refl)
run-first zero (failed e) rest other = (enter_failed e rest (λ p. other (ap failed p)), refl)
run-first (suc n) a rest other = run-first n a rest other
