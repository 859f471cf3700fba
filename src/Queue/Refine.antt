-- ===== src/Queue/Refine.antt =====
-- queue.h: a virtqueue as its driver sees it, a line of buffers that wait.
use kthxvm.Base.{
  ℕ, suc, ◌+◌, ◌-◌, ◌≤◌, ◌≡◌, ◌≢◌, ap, ◌∙◌, List, [], ◌∷◌, Option, true, none, some, arith, ok,
}
use native.Mathlib.Decide.{dec_lt}
use kthxvm.Memory.{Memory, load-bound}
use kthxvm.Queue.{Queue, avail_idx, next, pop_back}
use kthxvm.Queue.Next.{next-some, next-none, pop_back-next, published, published_moved}

-- The descriptors that are published and not yet taken.
abbrev pub waiting : Queue → Memory → List ℕ
waiting q m = published (avail_idx q m - q.last_avail) q.last_avail q m

-- Taking the first of a line.
abbrev pub dequeue : List ℕ → Option ℕ × List ℕ
dequeue [] = (none, [])
dequeue (p ∷ ps) = (some p, ps)

-- What was taken is given back.
abbrev pub given_back : Option ℕ → Queue → Queue
given_back none q = q
given_back (some p) q = pop_back q

-- On a ready queue with a size, whose device is not ahead of the driver, `next` takes the first of
-- the waiting buffers, and is `nullptr` when there is none; the others wait as before. Giving the
-- buffer back lets it wait again, in its place.
pub next-dequeue :
    (q : Queue) (m : Memory)
    → q.ready ≡ true
    → q.size ≢ 0
    → q.last_avail ≤ avail_idx q m
    → (q' : Queue) × (next q m ≡ ok (q', (dequeue (waiting q m)).0))
      × (waiting q' m ≡ (dequeue (waiting q m)).1)
      × (waiting (given_back (dequeue (waiting q m)).0 q') m ≡ waiting q m)
unfolding published
next-dequeue q m ready s le = elim (dec_lt q.last_avail (avail_idx q m)) [
  | yes lt ↦
      let q' = record q { last_avail = q.last_avail + 1 } in
      let more : avail_idx q m - q.last_avail ≡ suc (avail_idx q m - (q.last_avail + 1)) =
        omega arith in
      let bound = load-bound 2 m (q.avail_addr + 2) in
      let back = pop_back-next q q' m _ (omega (arith, bound)) (next-some q m ready s lt) in
      rw more (
        q',
        next-some q m ready s lt,
        published_moved (avail_idx q m - (q.last_avail + 1)) (q.last_avail + 1) (q.last_avail + 1) q
            m,
        ap (λ (x : Queue). waiting x m) back ∙ ap (λ (k : ℕ). published k q.last_avail q m) more,
      )
  | no le' ↦
      let nothing : avail_idx q m - q.last_avail ≡ 0 = omega arith in
      let nobody = ap (λ (k : ℕ). published k q.last_avail q m) nothing in
      rw nothing (q, next-none q m (omega arith), nobody, nobody)
]
