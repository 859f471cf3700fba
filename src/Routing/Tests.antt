-- ===== src/Routing/Tests.antt =====
-- irq.h at the timer and at a device's interrupt.
use kthxvm.Base.{◌≡◌, [], ◌∷◌}
use kthxvm.Routing.{setup_irq_routing}
use kthxvm.Routing.Pins.{pins, pins-setup_irq_routing}

pins-setup_irq_routing_example : pins setup_irq_routing 12 ≡ (1, 4) ∷ (2, 12) ∷ []
pins-setup_irq_routing_example = pins-setup_irq_routing 12
