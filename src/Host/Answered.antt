-- ===== src/Host/Answered.antt =====
-- The start of the program, main.cpp and vmm.h, when the system answers every call.
use kthxvm.Base.{ℕ, ◌≡◌, refl, ◌∙◌, List, [], ◌∷◌, ◌++◌, Option, Result, ok, err, thrown}
use kthxvm.Memory.{Memory}
use kthxvm.Cpuid as Cpuid
use kthxvm.Ram.Boot.{Layout}
use kthxvm.Host.{Call, Calls, ◌>>=◌, lift, get_supported_cpuid, set_cpuid2}
use kthxvm.Host.Follows.{Bad, check, Follows-good, then_good}
use kthxvm.Host.Start.{Kernel, start, main}
use kthxvm.Host.Calls.{new_kvm-Follows}
use kthxvm.Host.Parts.{new_terminal-Follows, set_cpuids-Follows}
use kthxvm.Host.Order.{
  construction_calls, start_calls, boot_memory, main-Follows, new_vm-Follows-boot,
}

-- The identification goes to the processors before the kernel's file is looked at.
abbrev pub calls_until_load : Kernel → Calls
calls_until_load k =
    construction_calls
    ++ (get_supported_cpuid
        ∷ set_cpuid2 0 (Cpuid.filter_cpuid_copy k.cpuid)
        ∷ set_cpuid2 1 (Cpuid.filter_cpuid_copy k.cpuid)
        ∷ [])

module _ (answers : Calls → Call → Option ℕ) (version : ℕ)
    (good : (before : Calls) (c : Call) → ¬ Bad answers version before c) (k : Kernel) (l : Layout)
    (cmdline : List ℕ) (loaded : Result (ℕ × Memory)) where
  -- All the calls are made.
  pub main-answered :
      (entry : ℕ) (m : Memory)
      → loaded ≡ ok (entry, m)
      → main answers version k l cmdline loaded []
        ≡ (ok (boot_memory k l cmdline m), construction_calls ++ start_calls k entry m)
  main-answered entry m h =
      Follows-good answers version good _ _ _ []
        (main-Follows answers version k l cmdline loaded entry m h)

  -- On a system that never gives an answer on which the program gives up: if the loading of the
  -- kernel throws, `main` throws, after the calls that make the machine and give the
  -- processors their identification, and no other.
  pub main-not_loaded :
      loaded ≡ err thrown
      → main answers version k l cmdline loaded [] ≡ (err thrown, calls_until_load k)
  unfolding main start lift ◌>>=◌
  main-not_loaded h =
      then_good answers version good _ _ _ _ _ (new_kvm-Follows answers version)
      ∙ then_good answers version good _ _ _ _ _ (new_terminal-Follows answers version)
      ∙ then_good answers version good _ _ _ _ _ (new_vm-Follows-boot answers version)
      ∙ then_good answers version good _ _ _ _ _ (check refl)
      ∙ then_good answers version good _ _ _ _ _ (set_cpuids-Follows answers version _ 2 0)
      ∙ rw h refl
