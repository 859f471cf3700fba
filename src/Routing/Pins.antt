-- ===== src/Routing/Pins.antt =====
-- irq.h: which pins an interrupt reaches.
use kthxvm.Base.{ℕ, ◌-◌, ◌≡◌, ◌||◌, List, [], ◌∷◌, ◌++◌, ltb, leb, ◌==◌, if◌then◌else◌, arith}
use kthxvm.Routing.{
  Entry, irqchip_master, irqchip_slave, irqchip_ioapic, master, slave, ioapic, rounds,
  setup_irq_routing,
}

-- The pins, as pairs of a controller and a number, that the table connects an interrupt to, in
-- order.
abbrev pub pins : List Entry → ℕ → List (ℕ × ℕ)
pins [] g = []
pins (e ∷ es) g =
    let others = pins es g in if e.gsi == g then (e.irqchip, e.pin) ∷ others else others

-- The legacy pin that an interrupt below 16 has on the pair of 8259 controllers.
abbrev pub legacy : ℕ → List (ℕ × ℕ)
legacy g =
    if g == 2
    then []
    else if ltb g 8
    then (irqchip_master, g) ∷ []
    else if ltb g 16
    then (irqchip_slave, g - 8) ∷ []
    else []

-- Each interrupt reaches its pin of the 8259 pair and one pin of the I/O controller: its own, but
-- the timer, number 0, takes pin 2, and number 2 and those from 24 on reach none.
pub pins-setup_irq_routing :
    (g : ℕ)
    → pins setup_irq_routing g ≡ (
        legacy g
        ++ (if g == 0
            then (irqchip_ioapic, 2) ∷ []
            else if g == 2 || leb 24 g
            then []
            else (irqchip_ioapic, g) ∷ []))
unfolding setup_irq_routing rounds master slave ioapic
pins-setup_irq_routing g = ground arith
