-- ===== src/Queue/Tests.antt =====
-- virtio/queue.h on a queue of four, of which the driver has published three buffers.
use kthxvm.Base.{ℕ, min, [], ◌∷◌, ◌≤◌, ◌≡◌, ◌+◌, ◌-◌, ◌%◌, ◌^◌, refl, true, none, some, ok, arith}
use kthxvm.Memory.{Memory, load, store, load-store_self}
use kthxvm.Queue.{Queue, desc_at, avail_idx, avail_ring, used_idx, used_slot, next, add_used}
use kthxvm.Queue.Next.{drain, published, next-some, drain-published}
use kthxvm.Queue.Served.{served, served-bounded}
use kthxvm.Queue.Refine.{waiting, dequeue, given_back, next-dequeue}
use kthxvm.Queue.Used.{add_used_lem}

abbrev queue : ℕ → Queue
queue last_avail = record {
  size = 4;
  desc_addr = 0x1000;
  avail_addr = 0x2000;
  used_addr = 0x3000;
  notify = 0;
  last_avail = last_avail;
  ready = true;
}

abbrev memory : Memory
memory = store 2 (λ a. 1) 0x2002 3

published_three : avail_idx (queue 0) memory ≡ 3
published_three = load-store_self 2 (λ a. 1) 0x2002 3

next_example :
    next (queue 0) memory ≡ ok (queue 1, some (desc_at (queue 0) (avail_ring (queue 0) memory 0)))
next_example = next-some (queue 0) memory refl (omega arith) (omega (arith, published_three))

-- Two calls on a memory whose driver has published three buffers.
served_two : served (memory ∷ memory ∷ []) (queue 0) ≡ ok (2, queue 2)
unfolding served
served_two =
    rw
      (
        next-some (queue 0) memory refl (omega arith) (omega (arith, published_three)),
        next-some (queue 1) memory refl (omega arith) (omega (arith, published_three)),
      )
      refl

served-bounded_example :
    ((queue 0).last_avail + 2 ≡ (queue 2).last_avail)
    × ((queue 2).last_avail ≤ 65535)
    × ((queue 2).last_avail ≡ 65535 → (m : Memory) → next (queue 2) m ≡ ok (queue 2, none))
served-bounded_example =
    served-bounded (memory ∷ memory ∷ []) (queue 0) (queue 2) 2 (omega arith) served_two

drain-published_example :
    drain 2 (queue 0) memory
    ≡ ok (published (min 2 (avail_idx (queue 0) memory - 0)) 0 (queue 0) memory)
drain-published_example = drain-published 2 (queue 0) memory (omega arith)

add_used_example :
    (m' : Memory) × (add_used (queue 1) memory 7 512
      ≡ ok (m', (used_idx (queue 1) memory + 1) % 2 ^ 16))
    × (load 4 m' (used_slot (queue 1) (used_idx (queue 1) memory % 4)) ≡ 7)
    × (load 4 m' (used_slot (queue 1) (used_idx (queue 1) memory % 4) + 4) ≡ 512)
    × (used_idx (queue 1) m' ≡ (used_idx (queue 1) memory + 1) % 2 ^ 16)
add_used_example = add_used_lem (queue 1) memory 7 512 (omega arith)

next-dequeue_example :
    (q' : Queue) × (next (queue 1) memory ≡ ok (q', (dequeue (waiting (queue 1) memory)).0))
    × (waiting q' memory ≡ (dequeue (waiting (queue 1) memory)).1)
    × (waiting (given_back (dequeue (waiting (queue 1) memory)).0 q') memory
        ≡ waiting (queue 1) memory)
next-dequeue_example =
    next-dequeue (queue 1) memory refl (omega arith) (omega (arith, published_three))
