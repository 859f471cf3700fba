-- ===== src/Queue/Next.antt =====
-- queue.h: which descriptors `next` hands out.
use kthxvm.Base.{
  ℕ, zero, suc, ◌+◌, ◌-◌, ◌%◌, ◌^◌, ◌≤◌, ◌<◌, ◌≡◌, refl, ap, ◌∙◌, List, [], ◌∷◌, true, false, inl,
  inr, min, Bool-cases, if◌then◌else◌, none, some, arith, u32, sub32, Result, ok, ◌>>=◌, ◌≢◌,
}
use native.Mathlib.Decide.{dec_lt}
use kthxvm.Memory.{Memory, load-bound}
use kthxvm.Queue.{Queue, desc_at, avail_idx, avail_ring, avail_id, next, pop_back}

avail_idx-bound : (q : Queue) (m : Memory) → avail_idx q m < 2 ^ 16
avail_idx-bound q m = omega (arith, load-bound 2 m (q.avail_addr + 2))

-- On a ready queue with a size, a buffer that the driver has published and the device has not taken
-- is handed out: its descriptor is the one that the ring names at the device's position, and
-- the position moves on by one.
pub next-some :
    (q : Queue) (m : Memory)
    → q.ready ≡ true
    → q.size ≢ 0
    → q.last_avail < avail_idx q m
    → next q m
      ≡ ok (
        record q { last_avail = q.last_avail + 1 },
        some (desc_at q (avail_ring q m (q.last_avail % q.size))),
      )
unfolding next avail_id
next-some q m r s lt =
    let grow : u32 (q.last_avail + 1) ≡ q.last_avail + 1 = omega (arith, avail_idx-bound q m) in
    let back : sub32 (u32 (q.last_avail + 1)) 1 ≡ q.last_avail =
      omega (arith, avail_idx-bound q m) in
    ground (arith, grow, back)

pub next-none : (q : Queue) (m : Memory) → avail_idx q m ≤ q.last_avail → next q m ≡ ok (q, none)
unfolding next
next-none q m le = ground arith

-- From the position 65535 on no buffer is handed out and the position stays, whatever the driver
-- publishes.
pub next_stalls : (q : Queue) (m : Memory) → 65535 ≤ q.last_avail → next q m ≡ ok (q, none)
next_stalls q m h = next-none q m (omega (arith, avail_idx-bound q m))

pub next_taken :
    (q q' : Queue) (m : Memory) (p : ℕ)
    → next q m ≡ ok (q', some p)
    → q' ≡ record q { last_avail = u32 (q.last_avail + 1) }
unfolding next avail_id
next_taken q q' m p e = ground arith

-- A call that hands out nothing changes nothing, and one that hands out a buffer finds the position
-- below the index of the driver.
pub next-idle : (q q' : Queue) (m : Memory) → next q m ≡ ok (q', none) → q' ≡ q
unfolding next avail_id
next-idle q q' m e = ground arith

pub next-below :
    (q q' : Queue) (m : Memory) (p : ℕ) → next q m ≡ ok (q', some p) → q.last_avail < 65535
unfolding next avail_id
next-below q q' m p e = let bound = avail_idx-bound q m in ground (arith, bound)

-- Giving a buffer back with `pop_back` undoes the call of `next` that took it.
pub pop_back-next :
    (q q' : Queue) (m : Memory) (p : ℕ)
    → q.last_avail < 2 ^ 32
    → next q m ≡ ok (q', some p)
    → pop_back q' ≡ q
unfolding pop_back
pop_back-next q q' m p h e =
    let back : sub32 (u32 (q.last_avail + 1)) 1 ≡ q.last_avail = omega arith in
    ap pop_back (next_taken q q' m p e) ∙ ap (λ (n : ℕ). record q { last_avail = n }) back

-- What a device takes that calls `next` until it gets `nullptr`: the descriptors' addresses.
pub drain : ℕ → Queue → Memory → Result (List ℕ)
drain zero q m = ok []
drain (suc n) q m =
    next q m >>= λ (q', o). elim o [ none ↦ ok [] | some p ↦ drain n q' m >>= λ ps. ok (p ∷ ps) ]

-- The descriptors that the ring names at `n` positions from `i` on, round the ring.
unfoldable pub published : ℕ → ℕ → Queue → Memory → List ℕ
published zero i q m = []
published (suc n) i q m = desc_at q (avail_ring q m (i % q.size)) ∷ published n (i + 1) q m

pub published_moved :
    (n i l : ℕ) (q : Queue) (m : Memory)
    → published n i (record q { last_avail = l }) m ≡ published n i q m
unfolding published
published_moved zero i l q m = refl
published_moved (suc n) i l q m =
    ap (◌∷◌ (desc_at q (avail_ring q m (i % q.size)))) (published_moved n (i + 1) l q m)

pub next_not_ready : (q : Queue) (m : Memory) → q.ready ≡ false → next q m ≡ ok (q, none)
unfolding next
next_not_ready q m r = rw r refl

drain_not_ready : (n : ℕ) (q : Queue) (m : Memory) → q.ready ≡ false → drain n q m ≡ ok []
unfolding drain
drain_not_ready zero q m r = refl
drain_not_ready (suc n) q m r = rw (next_not_ready q m r) refl

drain_ready :
    (n : ℕ) (q : Queue) (m : Memory)
    → q.ready ≡ true
    → q.size ≢ 0
    → drain n q m ≡ ok (published (min n (avail_idx q m - q.last_avail)) q.last_avail q m)
unfolding drain published
drain_ready zero q m r s =
    let nothing : min 0 (avail_idx q m - q.last_avail) ≡ 0 = omega arith in rw nothing refl
drain_ready (suc n) q m r s = elim (dec_lt q.last_avail (avail_idx q m)) [
  | yes lt ↦
      let q' = record q { last_avail = q.last_avail + 1 } in
      let more : min (suc n) (avail_idx q m - q.last_avail)
          ≡ suc (min n (avail_idx q m - (q.last_avail + 1))) =
        omega arith in
      rw (next-some q m r s lt, more)
        (rw (drain_ready n q' m r s) (
          ap (λ ps. ok (desc_at q (avail_ring q m (q.last_avail % q.size)) ∷ ps))
            (published_moved (min n (avail_idx q m - (q.last_avail + 1))) (q.last_avail + 1)
              (q.last_avail + 1) q m)))
  | no le' ↦
      let nothing : min (suc n) (avail_idx q m - q.last_avail) ≡ 0 = omega arith in
      rw (next-none q m (omega arith), nothing) refl
]

-- A device that calls `next` until it gets `nullptr`, at most `n` times, on a queue with a size:
-- if the queue is ready, it gets, in order, what the driver has published since the device's
-- position, or the first `n` of that, and nothing if its position is not below the driver's index;
-- if the queue is not ready, it gets nothing.
pub drain-published :
    (n : ℕ) (q : Queue) (m : Memory)
    → q.size ≢ 0
    → drain n q m
      ≡ ok (
          if q.ready then published (min n (avail_idx q m - q.last_avail)) q.last_avail q m else [])
drain-published n q m s = elim (Bool-cases q.ready) [
  | inl on ↦ simp on (drain_ready n q m on s)
  | inr off ↦ simp off (drain_not_ready n q m off)
]

-- The number of the descriptor that was handed out last.
pub avail_id-moved :
    (q : Queue) (m : Memory)
    → q.size ≢ 0
    → q.last_avail < avail_idx q m
    → avail_id (record q { last_avail = q.last_avail + 1 }) m
      ≡ ok (avail_ring q m (q.last_avail % q.size))
unfolding avail_id
avail_id-moved q m s lt =
    let back : sub32 (q.last_avail + 1) 1 ≡ q.last_avail = omega (arith, avail_idx-bound q m) in
    ground (arith, back)
