-- ===== src/Cpu/Lapic.antt =====
-- apic.h: the two local interrupt pins of a processor.
use kthxvm.Base.{ℕ, ◌*◌, ◌<◌, ◌≡◌, ◌∙◌, inl, arith, bit_and-zero, zero-bit_or}
use kthxvm.Memory.{Memory, load, store, Outside, store-Outside, load-store_self, load-store-Apart}
use kthxvm.Cpu.{setup_lapic, apic_delivery_mode, apic_lvt0, apic_lvt1}

delivery_mode : (reg mode : ℕ) → mode < 8 → apic_delivery_mode reg mode ≡ mode * 256
unfolding apic_delivery_mode
delivery_mode reg mode h = rw (bit_and-zero reg) (zero-bit_or _ ∙ omega arith)

-- Whatever the processor had in them, LINT0 becomes an interrupt of the legacy controller and LINT1
-- one that is not maskable, each with every other bit of its register cleared, the vector and the
-- mask among them; no other register is changed.
pub setup_lapic_lem :
    (lapic : Memory)
    → (load 4 (setup_lapic lapic) apic_lvt0 ≡ 0x700)
      × (load 4 (setup_lapic lapic) apic_lvt1 ≡ 0x400)
      × ((x : ℕ) → Outside apic_lvt0 4 x → Outside apic_lvt1 4 x → setup_lapic lapic x ≡ lapic x)
unfolding setup_lapic
setup_lapic_lem lapic =
    let lint0 = store 4 lapic apic_lvt0 (apic_delivery_mode (load 4 lapic apic_lvt0) 7) in
    let v1 = apic_delivery_mode (load 4 lint0 apic_lvt1) 4 in
    (
      load-store-Apart 4 4 lint0 apic_lvt1 v1 apic_lvt0 (inl (omega arith))
          ∙ load-store_self 4 lapic apic_lvt0 (apic_delivery_mode (load 4 lapic apic_lvt0) 7)
          ∙ omega (arith, delivery_mode (load 4 lapic apic_lvt0) 7 (omega arith)),
      load-store_self 4 lint0 apic_lvt1 v1
          ∙ omega (arith, delivery_mode (load 4 lint0 apic_lvt1) 4 (omega arith)),
      λ x p q. store-Outside 4 lint0 apic_lvt1 v1 x q ∙ store-Outside 4 lapic apic_lvt0 _ x p,
    )
