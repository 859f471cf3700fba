-- ===== src/Routing.antt =====
-- src/kvm/irq.h, the table that connects global interrupts to the pins of the interrupt
-- controllers. `type` is `KVM_IRQ_ROUTING_IRQCHIP` in every entry and is left out.
pub mod Pins
mod Tests
use kthxvm.Base.{ℕ, zero, suc, ◌+◌, ◌-◌, List, [], ◌∷◌, ◌++◌, ◌==◌, if◌then◌else◌}

abbrev pub irqchip_master : ℕ
irqchip_master = 0

abbrev pub irqchip_slave : ℕ
irqchip_slave = 1

abbrev pub irqchip_ioapic : ℕ
irqchip_ioapic = 2

pub record Entry : Type 0 where
  pub gsi : ℕ
  pub irqchip : ℕ
  pub pin : ℕ

-- What a round of each of the three loops appends.
pub master : ℕ → List Entry
master i = if i == 2 then [] else record { gsi = i; irqchip = irqchip_master; pin = i } ∷ []

pub slave : ℕ → List Entry
slave i = record { gsi = i; irqchip = irqchip_slave; pin = i - 8 } ∷ []

pub ioapic : ℕ → List Entry
ioapic i =
    if i == 0
    then record { gsi = i; irqchip = irqchip_ioapic; pin = 2 } ∷ []
    else if i == 2
    then []
    else record { gsi = i; irqchip = irqchip_ioapic; pin = i } ∷ []

-- `n` rounds of a loop, from `i` on.
pub rounds : (ℕ → List Entry) → ℕ → ℕ → List Entry
rounds round zero i = []
rounds round (suc n) i = round i ++ rounds round n (i + 1)

-- The entries that `set_gsi_routing` is given.
pub setup_irq_routing : List Entry
setup_irq_routing = rounds master 8 0 ++ rounds slave 8 8 ++ rounds ioapic 24 0
