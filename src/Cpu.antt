-- ===== src/Cpu.antt =====
-- src/kvm/vcpu.h, the loop of `run`; apic.h, msr.h and the rest of regs.h: what a processor has in
-- its registers before the first instruction. The kernel's answers to the calls of ioctl are
-- arguments; the state that a call sets is the result.
pub mod Run
pub mod Lapic
mod Tests
use kthxvm.Base.{
  ℕ, ◌+◌, Bool, true, false, ◌&&◌, not, Option, none, some, List, [], ◌∷◌, ◌++◌, length, word_bytes,
  bit_and, bit_or, u32, ◌<<<◌, ◌==◌, if◌then◌else◌, Result, ok, err, thrown, lnot,
}
use kthxvm.Memory.{Memory, load, store}

-- An answer of the kernel: zero or more, or an error with its number.
pub data Answer : Type 0 where
  done : Answer
  failed : ℕ → Answer

-- `run`, for the answers to KVM_RUN, one after the other: EAGAIN is tried again, EINTR is like a
-- return from the guest, and another error throws. The answers that are left are the result, or
-- `none` when there are no more and the loop still goes on.
pub enter : List Answer → Option (Result (List Answer))
enter [] = none
enter (done ∷ rest) = some (ok rest)
enter (failed errno ∷ rest) =
    let again = enter rest in
    if errno == 11 then again else if errno == 4 then some (ok rest) else some (err thrown)

-- `single_step` first turns single steps on, which has its own answer.
pub run : Bool → Answer → List Answer → Option (Result (List Answer))
run true (failed errno) rest = some (err thrown)
run single_step debug rest = enter rest

-- `struct kvm_regs`, rest far rest it is not zero.
pub record Regs : Type 0 where
  pub rflags : ℕ
  pub rip : ℕ
  pub rsp : ℕ
  pub rsi : ℕ

abbrev pub setup_regs : ℕ → ℕ → ℕ → Regs
setup_regs rip rsp rsi = record { rflags = 0x2; rip = rip; rsp = rsp; rsi = rsi }

-- `struct kvm_fpu`, rest far rest it is not zero.
pub record Fpu : Type 0 where
  pub fcw : ℕ
  pub mxcsr : ℕ

abbrev pub setup_fpu : Fpu
setup_fpu = record { fcw = 0x37f; mxcsr = 0x1f80 }

abbrev pub apic_lvt0 : ℕ
apic_lvt0 = 0x350

abbrev pub apic_lvt1 : ℕ
apic_lvt1 = 0x360

abbrev pub apic_mode_nmi : ℕ
apic_mode_nmi = 0x4

abbrev pub apic_mode_extint : ℕ
apic_mode_extint = 0x7

-- `!0x700` is the logical negation.
pub apic_delivery_mode : ℕ → ℕ → ℕ
apic_delivery_mode reg mode = bit_or (bit_and reg (lnot 0x700)) (u32 (mode <<< 8))

-- `lapic` is the array `regs` of `struct kvm_lapic_state`, as the kernel gives it.
pub setup_lapic : Memory → Memory
setup_lapic lapic =
    let lint0 =
      store 4 lapic apic_lvt0 (apic_delivery_mode (load 4 lapic apic_lvt0) apic_mode_extint) in
    store 4 lint0 apic_lvt1 (apic_delivery_mode (load 4 lint0 apic_lvt1) apic_mode_nmi)

-- `struct kvm_msr_entry`
pub record Msr : Type 0 where
  pub index : ℕ
  pub value : ℕ

abbrev pub setup_msrs : List Msr
setup_msrs =
    record { index = 0x174; value = 0 }
    ∷ record { index = 0x175; value = 0 }
    ∷ record { index = 0x176; value = 0 }
    ∷ record { index = 0xc0000081; value = 0 }
    ∷ record { index = 0xc0000083; value = 0 }
    ∷ record { index = 0xc0000102; value = 0 }
    ∷ record { index = 0xc0000084; value = 0 }
    ∷ record { index = 0xc0000082; value = 0 }
    ∷ record { index = 0x10; value = 0 }
    ∷ record { index = 0x1a0; value = 1 }
    ∷ []
