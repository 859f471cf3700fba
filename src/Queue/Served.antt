-- ===== src/Queue/Served.antt =====
-- queue.h: how many buffers `next` can hand out over the life of a queue.
use kthxvm.Base.{
  ℕ, ◌+◌, ◌≤◌, ◌≡◌, ap, ◌∙◌, List, [], ◌∷◌, Option, none, some, arith, u32, Result, ok, ◌>>=◌,
  ok_of_bind, ok_injective,
}
use kthxvm.Memory.{Memory}
use kthxvm.Queue.{Queue, next}
use kthxvm.Queue.Next.{next_taken, next-idle, next-below, next_stalls}

abbrev pub handed_out : Option ℕ → ℕ
handed_out none = 0
handed_out (some p) = 1

-- One call of `next` for each of these memories, in which the driver has published whatever it
-- likes: how many buffers were handed out, and the queue.
unfoldable pub served : List Memory → Queue → Result (ℕ × Queue)
served [] q = ok (0, q)
served (m ∷ ms) q = next q m >>= λ (q', o). served ms q' >>= λ (k, q''). ok (handed_out o + k, q'')

next-count :
    (q q' : Queue) (m : Memory) (o : Option ℕ)
    → q.last_avail ≤ 65535
    → next q m ≡ ok (q', o)
    → (q'.last_avail ≡ q.last_avail + handed_out o) × (q'.last_avail ≤ 65535)
next-count q q' m none h e =
    let same = next-idle q q' m e in
    (ap (λ (x : Queue). x.last_avail) same ∙ omega arith, rw same h)
next-count q q' m (some p) h e =
    let moved : q'.last_avail ≡ u32 (q.last_avail + 1) =
      ap (λ (x : Queue). x.last_avail) (next_taken q q' m p e) in
    let below = next-below q q' m p e in (omega (arith, moved), omega (arith, moved))

-- Over any number of calls of `next`, whatever the driver publishes between them, a queue that
-- starts at a position up to 65535 never gets past it: the position counts the buffers that were
-- handed out, so they are never more than 65535 in all, and from that position on each call
-- hands out none and changes nothing.
pub served-bounded :
    (ms : List Memory) (q q' : Queue) (k : ℕ)
    → q.last_avail ≤ 65535
    → served ms q ≡ ok (k, q')
    → (q.last_avail + k ≡ q'.last_avail)
      × (q'.last_avail ≤ 65535)
      × (q'.last_avail ≡ 65535 → (m : Memory) → next q' m ≡ ok (q', none))
unfolding served
served-bounded [] q q' k h e =
    let pair = ok_injective e in
    let now : q ≡ q' = ap (λ (x : ℕ × Queue). x.1) pair in
    let none_out : 0 ≡ k = ap (λ (x : ℕ × Queue). x.0) pair in
    rw (← now) (omega arith, h, λ full m. next_stalls q m (omega arith))
served-bounded (m ∷ ms) q q' k h e =
    let ((q1, o), first, rest) = ok_of_bind (next q m) _ e in
    let ((k', q2), later, done) = ok_of_bind (served ms q1) _ rest in
    let pair = ok_injective done in
    let now : q2 ≡ q' = ap (λ (x : ℕ × Queue). x.1) pair in
    let all : handed_out o + k' ≡ k = ap (λ (x : ℕ × Queue). x.0) pair in
    let (moved, small) = next-count q q1 m o h first in
    let (count, bound, stall) = served-bounded ms q1 q2 k' small later in
    rw (← now) (omega arith, bound, stall)
