-- ===== src/Queue/Table.antt =====
-- virtio/queue.h: the table of descriptors, and stores that leave it as it is.
use kthxvm.Base.{ℕ, ◌+◌, ◌*◌, ◌^◌, ◌≤◌, ◌<◌, ◌≡◌, List, length, inl, inr, arith}
use kthxvm.Memory.{
  Memory, load, load-bound, load-cong, write_bytes, write_bytes-Outside, Apart, Outside,
}
use kthxvm.Queue.{Queue, descriptor, desc_at}

pub next_bound : (m : Memory) (p : ℕ) → (descriptor m p).next < 2 ^ 16
unfolding descriptor
next_bound m p = omega (arith, load-bound 2 m (p + 14))

pub load-write_bytes :
    (k : ℕ) (m : Memory) (a b : ℕ) (bs : List ℕ)
    → Apart a (length bs) b k
    → load k (write_bytes m a bs) b ≡ load k m b
load-write_bytes k m a b bs apart =
    load-cong k (write_bytes m a bs) m b (λ x lo hi. write_bytes-Outside bs m a x (side x lo hi))
  where
    side : (x : ℕ) → b ≤ x → x < b + k → Outside a (length bs) x
    side x lo hi = elim apart [ inl below ↦ inl (omega arith) | inr above ↦ inr (omega arith) ]

-- A store outside of the table, which has at most 2^16 descriptors, changes none of them.
pub descriptor-write_bytes :
    (q : Queue) (m : Memory) (a i l : ℕ) (bs : List ℕ)
    → length bs ≤ l
    → Apart a l q.desc_addr (16 * 2 ^ 16)
    → i < 2 ^ 16
    → descriptor (write_bytes m a bs) (desc_at q i) ≡ descriptor m (desc_at q i)
unfolding descriptor
descriptor-write_bytes q m a i l bs fits apart small =
    let p = desc_at q i in
    let kept : (k o : ℕ) → o + k ≤ 16 → load k (write_bytes m a bs) (p + o) ≡ load k m (p + o) =
      λ k o h.
        load-write_bytes k m a (p + o) bs
          (elim apart [ inl below ↦ inl (omega arith) | inr above ↦ inr (omega arith) ]) in
    let whole : load 8 (write_bytes m a bs) p ≡ load 8 m p =
      load-write_bytes 8 m a p bs
        (elim apart [ inl below ↦ inl (omega arith) | inr above ↦ inr (omega arith) ]) in
    λ t. record {
      addr = whole t;
      len = kept 4 8 (omega arith) t;
      flags = kept 2 12 (omega arith) t;
      next = kept 2 14 (omega arith) t;
    }

pub len_bound : (m : Memory) (p : ℕ) → (descriptor m p).len < 2 ^ 32
unfolding descriptor
len_bound m p = omega (arith, load-bound 4 m (p + 8))
