-- ===== src/Uart/Tests.antt =====
-- device/uart.h on concrete ports: one with a terminal, after some calls.
use kthxvm.Base.{ℕ, ◌≡◌, refl, true, List, [], ◌∷◌, replicate, map, arith}
use kthxvm.Uart.{Uart, byte, eof, init, is_dlab_set, is_loop, write_stdio}
use kthxvm.Uart.Invariant.{IsValid, Call, run, reads, writes, types, run-init-IsValid}
use kthxvm.Uart.Fifo.{received, poll, poll-received}
use kthxvm.Uart.Input.{write_stdio_lem}

abbrev blank : List ℕ
blank = replicate 64 0

-- A port with a terminal on which `A` and `B` were typed, with the given line control, modem
-- control and interrupt enable registers.
abbrev port : ℕ → ℕ → ℕ → Uart
port lcr mcr ier = record {
  has_term = true;
  baud_divisor = 12;
  ier = ier;
  iir = 0x1;
  fcr = 0;
  lcr = lcr;
  mcr = mcr;
  lsr = 0x61;
  msr = 0xb0;
  scr = 0;
  rx_buf = 65 ∷ 66 ∷ replicate 62 0;
  rx_cnt = 2;
  rx_done = 0;
  tx_buf = blank;
  tx_cnt = 0;
}

abbrev idle : Uart
idle = record (port 0x03 0x08 0) { lsr = 0x60; rx_cnt = 0 }

port-IsValid : (lcr mcr ier : ℕ) → IsValid (port lcr mcr ier)
port-IsValid lcr mcr ier = record {
  rx_room = refl;
  rx_order = omega arith;
  rx_bound = omega arith;
  rx_reset = λ e. omega (arith, e);
  tx_room = refl;
  tx_empty = refl;
  status = refl;
}

idle-IsValid : IsValid idle
idle-IsValid = record {
  rx_room = refl;
  rx_order = omega arith;
  rx_bound = omega arith;
  rx_reset = λ e. refl;
  tx_room = refl;
  tx_empty = refl;
  status = refl;
}

abbrev calls : List Call
calls = types 0 (byte 65 ∷ byte 66 ∷ eof ∷ []) ∷ writes 0 1 1 ∷ reads 0 0 1 ∷ writes 0 0 72 ∷ []

run-init-IsValid_example : IsValid (run (init true blank blank) calls)
run-init-IsValid_example = run-init-IsValid true blank blank calls refl refl

poll-received_example : poll 2 (port 0x03 0x08 0x1) 0 ≡ 65 ∷ 66 ∷ []
unfolding is_dlab_set
poll-received_example =
    poll-received 2 (port 0x03 0x08 0x1) 0 (port-IsValid 0x03 0x08 0x1) refl (omega arith)

write_stdio_lem_example :
    let (u', n, keys, es) = write_stdio idle 0 (map byte (67 ∷ 68 ∷ [])) in
    (n ≡ 1) × (received u' ≡ 67 ∷ 68 ∷ []) × (keys ≡ [])
unfolding is_loop
write_stdio_lem_example = write_stdio_lem idle 0 (67 ∷ 68 ∷ []) idle-IsValid
