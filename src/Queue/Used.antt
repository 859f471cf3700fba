-- ===== src/Queue/Used.antt =====
-- queue.h: what `add_used` leaves in the used ring.
use kthxvm.Base.{
  ℕ, ◌+◌, ◌*◌, ◌%◌, ◌^◌, ◌<◌, ◌≡◌, ap, ◌∙◌, inl, inr, true, false, arith, ◌==◌, Result, ok, ◌≢◌,
}
use native.Mathlib.Nat.{mod-lt}
use native.Mathlib.Decide.{ℕ_discrete}
use kthxvm.Memory.{Memory, load, store, load-store_self, load-store-Apart, store-Outside, Outside}
use kthxvm.Queue.{Queue, used_idx, used_slot, add_used}

-- The three writes, with the index read once.
abbrev returned : Queue → Memory → ℕ → ℕ → Memory
returned q m start len =
    let slot = used_slot q (used_idx q m % q.size) in
    store 2 (store 4 (store 4 m (slot + 4) len) slot start) (q.used_addr + 2) (used_idx q m + 1)

add_used-returned :
    (q : Queue) (m : Memory) (start len : ℕ)
    → q.size ≢ 0
    → add_used q m start len ≡ ok (returned q m start len, used_idx q (returned q m start len))
unfolding add_used
add_used-returned q m start len s =
    let slot = used_slot q (used_idx q m % q.size) in
    let m1 = store 4 m (slot + 4) len in
    let idx1 : used_idx q m1 ≡ used_idx q m =
      load-store-Apart 4 2 m (slot + 4) len (q.used_addr + 2) (inl (omega arith)) in
    let m2 = store 4 m1 slot start in
    let idx2 : used_idx q m2 ≡ used_idx q m =
      load-store-Apart 4 2 m1 slot start (q.used_addr + 2) (inl (omega arith)) ∙ idx1 in
    let sized : (q.size == 0) ≡ false = ground arith in rw (sized, idx1, idx2)

ok_memory :
    (r : Result (Memory × ℕ)) {m m' : Memory} {n n' : ℕ} → r ≡ ok (m, n) → r ≡ ok (m', n') → m ≡ m'
ok_memory r e e' = ground arith

add_used-fault :
    (q : Queue) (m : Memory) (start len : ℕ) {m' : Memory} {n : ℕ}
    → q.size ≡ 0
    → ¬ (add_used q m start len ≡ ok (m', n))
unfolding add_used
add_used-fault q m start len z e =
    let sized : (q.size == 0) ≡ true = ground arith in cc (rw (sized) at e)

-- Returning a buffer to a queue with a size succeeds. The slot at the device's index, taken round
-- the ring, then names the buffer and its length, and the index has moved on by one and is
-- returned, each at its width.
pub add_used_lem :
    (q : Queue) (m : Memory) (start len : ℕ)
    → q.size ≢ 0
    → (m' : Memory) × (add_used q m start len ≡ ok (m', (used_idx q m + 1) % 2 ^ 16))
      × (load 4 m' (used_slot q (used_idx q m % q.size)) ≡ start % 2 ^ 32)
      × (load 4 m' (used_slot q (used_idx q m % q.size) + 4) ≡ len % 2 ^ 32)
      × (used_idx q m' ≡ (used_idx q m + 1) % 2 ^ 16)
add_used_lem q m start len s =
    let slot = used_slot q (used_idx q m % q.size) in
    let m1 = store 4 m (slot + 4) len in
    let m2 = store 4 m1 slot start in
    let m3 = returned q m start len in
    let index : used_idx q m3 ≡ (used_idx q m + 1) % 2 ^ 16 =
      load-store_self 2 m2 (q.used_addr + 2) (used_idx q m + 1) in
    (
      m3,
      add_used-returned q m start len s ∙ ap (λ (n : ℕ). ok (m3, n)) index,
      load-store-Apart 2 4 m2 (q.used_addr + 2) (used_idx q m + 1) slot (inr (omega arith))
          ∙ load-store_self 4 m1 slot start,
      load-store-Apart 2 4 m2 (q.used_addr + 2) (used_idx q m + 1) (slot + 4) (inr (omega arith))
          ∙ load-store-Apart 4 4 m1 slot start (slot + 4) (inr (omega arith))
          ∙ load-store_self 4 m (slot + 4) len,
      index,
    )

-- When `add_used` succeeds, no byte outside of the used index and the used ring is changed.
pub add_used-keeps :
    (q : Queue) (m m' : Memory) (start len n x : ℕ)
    → add_used q m start len ≡ ok (m', n)
    → Outside (q.used_addr + 2) (2 + 8 * q.size) x
    → m' x ≡ m x
add_used-keeps q m m' start len n x e out = elim (ℕ_discrete q.size 0) [
  | yes z ↦ absurd (add_used-fault q m start len z e)
  | no s ↦
      let slot = used_slot q (used_idx q m % q.size) in
      let inside : used_idx q m % q.size < q.size = mod-lt (used_idx q m) (omega arith) in
      let m1 = store 4 m (slot + 4) len in
      let m2 = store 4 m1 slot start in
      let same : returned q m start len ≡ m' =
        ok_memory (add_used q m start len) (add_used-returned q m start len s) e in
      rw (← same) (
        store-Outside 2 m2 (q.used_addr + 2) (used_idx q m + 1) x (omega arith)
        ∙ store-Outside 4 m1 slot start x (omega arith)
        ∙ store-Outside 4 m (slot + 4) len x (omega arith))
]
