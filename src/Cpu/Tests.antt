-- ===== src/Cpu/Tests.antt =====
-- vcpu.h and apic.h on a few answers of the kernel.
use kthxvm.Base.{◌≡◌, refl, false, none, some, [], ◌∷◌, ◌++◌, replicate, err, thrown}
use kthxvm.Cpu.{done, failed, enter, run}
use kthxvm.Memory.{Memory}
use kthxvm.Cpu.Run.{outcome, run-first}

run-first_example :
    (run false done (replicate 3 (failed 11) ++ done ∷ failed 4 ∷ [])
      ≡ some (outcome done (failed 4 ∷ [])))
    × (run false done (replicate 3 (failed 11)) ≡ none)
run-first_example = run-first 3 done (failed 4 ∷ []) (λ p. cc)

throws : run false done (failed 11 ∷ failed 14 ∷ []) ≡ some (err thrown)
unfolding run enter
throws = refl

-- Both pins masked, as after a reset.
abbrev masked : Memory
masked = λ a. 1
