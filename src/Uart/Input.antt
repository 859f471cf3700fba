-- ===== src/Uart/Input.antt =====
-- uart.h: `write_stdio`, which moves typed bytes into the receive buffer.
use mathlib.Core.List.{append_assoc, append-nil}
use kthxvm.Base.{
  ℕ, zero, suc, ◌+◌, ◌-◌, ◌<◌, ◌≡◌, refl, sym, ap, ◌∙◌, inl, inr, List, [], ◌∷◌, ◌++◌, map, true,
  false, ◌||◌, not, arith, has, u8, ltb, ◌==◌, if◌then◌else◌, take, drop, Bool-cases,
}
use kthxvm.Uart.{Uart, Key, byte, fifo_len, is_loop, receive, fill, write_stdio}
use kthxvm.Uart.Invariant.{IsValid, receive-IsValid}
use kthxvm.Uart.Fifo.{received, received-receive, received-update_irq, received_none, has-lsr}

take_none : (n : ℕ) → take n (map u8 []) ≡ []
take_none zero = refl
take_none (suc n) = refl

drop_none : (n : ℕ) → drop {A = ℕ} n [] ≡ []
drop_none zero = refl
drop_none (suc n) = refl

take_next : (n : ℕ) (x : ℕ) (xs : List ℕ) → 0 < n → take n (x ∷ xs) ≡ x ∷ take (n - 1) xs
take_next zero x xs h = absurd (omega arith)
take_next (suc n) x xs h = ap (λ k. x ∷ take k xs) (omega arith)

drop_next : (n : ℕ) (x : ℕ) (xs : List ℕ) → 0 < n → drop n (x ∷ xs) ≡ drop (n - 1) xs
drop_next zero x xs h = absurd (omega arith)
drop_next (suc n) x xs h = ap (λ k. drop k xs) (omega arith)

-- What the loop has done: the bytes that fit are received, and the others are left unread.
record Filled (u : Uart) (cs : List ℕ) (out : Uart × List Key) : Type 0 where
  taken : received out.0 ≡ received u ++ take (64 - u.rx_cnt) (map u8 cs)
  left : out.1 ≡ map byte (drop (64 - u.rx_cnt) cs)

rx_cnt-receive :
    (u : Uart) (b : ℕ) → IsValid u → u.rx_cnt < 64 → (receive u b).rx_cnt ≡ u.rx_cnt + 1
unfolding receive
rx_cnt-receive u b v room = omega arith

fill-Filled : (cs : List ℕ) (u : Uart) → IsValid u → Filled u cs (fill u (map byte cs))
unfolding fill
fill-Filled [] u v = record {
  taken = rw take_none (sym (append-nil (received u)));
  left = rw drop_none;
}
fill-Filled (c ∷ cs) u v = elim (Bool-cases (ltb u.rx_cnt fifo_len)) [
  | inl room ↦
      let lt : u.rx_cnt < 64 = ground arith in
      let ih = fill-Filled cs (receive u (u8 c)) (receive-IsValid u (u8 c) lt v) in
      let fewer : 64 - (receive u (u8 c)).rx_cnt ≡ 64 - u.rx_cnt - 1 =
        omega (arith, rx_cnt-receive u (u8 c) v lt) in
      rw room (record {
        taken = rw (take_next (64 - u.rx_cnt) (u8 c) (map u8 cs) (omega arith)) (
            rw (← fewer) (
              ih.taken
              ∙ rw (received-receive u (u8 c) v lt) (
                  append_assoc (received u) (u8 c ∷ [])
                    (take (64 - (receive u (u8 c)).rx_cnt) (map u8 cs)))));
        left = rw (drop_next (64 - u.rx_cnt) c cs (omega arith), ← fewer) ih.left;
      })
  | inr full ↦
      let none_fit : 64 - u.rx_cnt ≡ 0 = ground arith in
      rw full (record { taken = rw none_fit (sym (append-nil (received u))); left = rw none_fit })
]

-- On an idle port, outside of loopback mode, a call takes the typed bytes in order, as many as the
-- buffer holds, leaves the others unread and answers 1; in loopback mode, or while received bytes
-- wait, it takes none and answers 0.
pub write_stdio_lem :
    (u : Uart) (junk : ℕ) (cs : List ℕ)
    → IsValid u
    → let (u', n, keys, es) = write_stdio u junk (map byte cs) in
      let busy = is_loop u || not (u.rx_cnt == 0) in
      (n ≡ (if busy then 0 else 1))
      × (received u' ≡ (if busy then received u else take 64 (map u8 cs)))
      × (keys ≡ (if busy then map byte cs else map byte (drop 64 cs)))
unfolding write_stdio
write_stdio_lem u junk cs v = elim (Bool-cases (is_loop u)) [
  | inl loop ↦ rw (loop, write_stdio) (refl, refl, refl)
  | inr off ↦ elim (Bool-cases (u.rx_cnt == 0)) [
    | inl e ↦
        let f = fill-Filled cs u v in
        let room : 64 - u.rx_cnt ≡ 64 = ground arith in
        let idle : has u.lsr 0x1 ≡ false = ground (arith, has-lsr u v) in
        let start : received u ≡ [] = received_none u (ground arith) in
        rw (off, idle, e, write_stdio)
          (
            refl,
            received-update_irq (fill u (map byte cs)).0 junk ∙ f.taken ∙ rw (room, start) refl,
            f.left ∙ rw room refl,
          )
    | inr ne ↦
        let waiting : has u.lsr 0x1 ≡ true = ground (arith, has-lsr u v) in
        rw (off, waiting, ne, write_stdio) (refl, received-update_irq u junk, refl)
  ]
]
