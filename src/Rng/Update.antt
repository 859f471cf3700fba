-- ===== src/Rng/Update.antt =====
-- rng.h: a request for random bytes.
use kthxvm.Base.{
  ℕ, ◌+◌, ◌*◌, ◌%◌, ◌^◌, ◌<◌, ◌≡◌, ◌≢◌, true, List, [], ◌∷◌, length, map, u8, ok, set_level, refl,
  ◌∙◌, ap, sym, inl, inr, u32, arith,
}
use kthxvm.Memory.{
  Memory, write_bytes, read_bytes, Apart, load, load-bound, read_bytes-cong, read_bytes-write_bytes,
}
use kthxvm.Queue.{Queue, descriptor, desc_at, avail_idx, avail_ring, used_idx, used_slot}
use kthxvm.Queue.Next.{next-some, avail_id-moved}
use kthxvm.Queue.Table.{descriptor-write_bytes, load-write_bytes, len_bound}
use kthxvm.Queue.Used.{add_used_lem, add_used-keeps}
use kthxvm.Rng.{update}

-- On a ready queue with a buffer that the driver has published, apart from the table of descriptors
-- and from the used ring, a call fills the buffer with random bytes, returns it with its length as
-- the next used buffer, takes no other and raises the line.
pub update_lem :
    (random : ℕ → List ℕ) (q : Queue) (m : Memory)
    → ((n : ℕ) → length (random n) ≡ n)
    → q.ready ≡ true
    → q.size ≢ 0
    → q.last_avail < avail_idx q m
    → let id = avail_ring q m (q.last_avail % q.size) in
      let d = descriptor m (desc_at q id) in
      Apart d.addr d.len q.desc_addr (16 * 2 ^ 16)
      → Apart d.addr d.len (q.used_addr + 2) (2 + 8 * q.size)
      → let q' = record q { last_avail = q.last_avail + 1 } in
        (m' : Memory) × (update random q m
          ≡ ok (record { queue = q'; memory = m'; effects = set_level true ∷ [] }))
        × (read_bytes m' d.addr d.len ≡ map u8 (random d.len))
        × (load 4 m' (used_slot q (used_idx q m % q.size)) ≡ id)
        × (load 4 m' (used_slot q (used_idx q m % q.size) + 4) ≡ d.len)
        × (used_idx q m' ≡ (used_idx q m + 1) % 2 ^ 16)
unfolding update
update_lem random q m sized ready s lt table ring =
    let id = avail_ring q m (q.last_avail % q.size) in
    let p = desc_at q id in
    let d = descriptor m p in
    let q' = record q { last_avail = q.last_avail + 1 } in
    let filled = write_bytes m d.addr (random d.len) in
    let small : id < 2 ^ 16 =
      omega (arith, load-bound 2 m (q.avail_addr + 4 + 2 * (q.last_avail % q.size))) in
    let same =
      descriptor-write_bytes q m d.addr id d.len (random d.len) (omega (arith, sized d.len)) table
        small in
    let index : used_idx q filled ≡ used_idx q m =
      load-write_bytes 2 m d.addr (q.used_addr + 2) (random d.len) (elim ring [
        | inl below ↦ inl (omega arith)
        | inr above ↦ inr (omega (arith, sized d.len))
      ]) in
    let len : u32 d.len ≡ d.len = omega (arith, len_bound m p) in
    let (m', done, number, length', moved) = add_used_lem q' filled id (u32 d.len) s in
    let kept : read_bytes m' d.addr d.len ≡ read_bytes filled d.addr d.len =
      read_bytes-cong d.len m' filled d.addr (λ x lo hi.
        add_used-keeps q' filled m' id (u32 d.len) _ x done
          (elim ring [ inl below ↦ inr (omega arith) | inr above ↦ inl (omega arith) ])) in
    (
      m',
      rw (next-some q m ready s lt, avail_id-moved q m s lt, same, done, update) refl,
      kept
          ∙ ap (λ (n : ℕ). read_bytes filled d.addr n) (sym (sized d.len))
          ∙ read_bytes-write_bytes (random d.len) m d.addr,
      ap (λ (n : ℕ). load 4 m' (used_slot q (n % q.size))) (sym index) ∙ number ∙ omega arith,
      ap (λ (n : ℕ). load 4 m' (used_slot q (n % q.size) + 4)) (sym index)
          ∙ length'
          ∙ omega (arith, len),
      moved ∙ ap (λ (n : ℕ). (n + 1) % 2 ^ 16) index,
    )
