-- ===== src/Blk/Finished.antt =====
-- virtio/blk.h: what the end of a round leaves: the status byte, the used ring and the interrupt.
use kthxvm.Base.{
  ℕ, ◌+◌, ◌-◌, ◌*◌, ◌%◌, ◌^◌, ◌≤◌, ◌<◌, ◌≡◌, ◌≢◌, refl, ◌∙◌, true, not, ◌&&◌, ◌==◌, if◌then◌else◌,
  some, List, [], ◌∷◌, arith, ok, set_level,
}
use kthxvm.Memory.{Memory, load, load-cong, load-bound, store_byte, Outside, Apart}
use kthxvm.Queue.{Queue, used_idx, used_slot, used_event}
use kthxvm.Queue.Used.{add_used_lem, add_used-keeps}
use kthxvm.Blk.{Blk, finish}
use kthxvm.Blk.File.{Stream}

-- The address is in none of the buffers.
abbrev pub OutsideAll : List (ℕ × ℕ) → ℕ → Type 0
OutsideAll [] x = Unit
OutsideAll ((a, l) ∷ segments) x = Outside a l x × OutsideAll segments x

-- None of the buffers has a byte of the `n` from `a` on.
abbrev pub AllApart : ℕ → ℕ → List (ℕ × ℕ) → Type 0
AllApart a n [] = Unit
AllApart a n ((b, k) ∷ segments) = Apart a n b k × AllApart a n segments

pub AllApart-OutsideAll :
    (a n : ℕ) (buffers : List (ℕ × ℕ)) (x : ℕ)
    → AllApart a n buffers
    → a ≤ x
    → x < a + n
    → OutsideAll buffers x
AllApart-OutsideAll a n [] x apart p r = tt
AllApart-OutsideAll a n ((b, k) ∷ buffers) x (here, apart) p r =
    (omega arith, AllApart-OutsideAll a n buffers x apart p r)

-- The used index and the used ring, which `add_used` may write.
abbrev pub OutsideRing : Queue → ℕ → Type 0
OutsideRing q x = Outside (q.used_addr + 2) (2 + 8 * q.size) x

-- The request `start` on the memory `m` has been returned, with `len` bytes and this status at `s`:
-- the slot at the old index of the used ring names it, the index is one further, the line is driven
-- when the old index is the one at which the driver wants an event, except for 65535, and outside
-- of these places and of the buffers no byte is changed.
pub record Finished (q : Queue) (m : Memory) (buffers : List (ℕ × ℕ)) (s status start len : ℕ)
    (b : Blk) : Type 0 where
  pub same_queue : b.queue ≡ q
  pub id : load 4 b.memory (used_slot q (used_idx q m % q.size)) ≡ start % 2 ^ 32
  pub returned_len : load 4 b.memory (used_slot q (used_idx q m % q.size) + 4) ≡ len % 2 ^ 32
  pub index : used_idx q b.memory ≡ (used_idx q m + 1) % 2 ^ 16
  pub says : b.memory s ≡ status % 256
  pub raised : b.effects ≡ (
      if used_idx q m == 65535
      then []
      else if used_idx q m == used_event q b.memory
      then set_level true ∷ []
      else [])
  pub kept : (x : ℕ) → x ≢ s → OutsideRing q x → OutsideAll buffers x → b.memory x ≡ m x

used_idx-cong :
    (q : Queue) (m m' : Memory)
    → ((x : ℕ) → q.used_addr + 2 ≤ x → x < q.used_addr + 4 → m x ≡ m' x)
    → used_idx q m ≡ used_idx q m'
used_idx-cong q m m' h = load-cong 2 m m' (q.used_addr + 2) (λ x p r. h x p (omega arith))

event_lem :
    (i j e : ℕ)
    → i < 65536
    → j ≡ (i + 1) % 2 ^ 16
    → (if not (j == 0) && j - 1 == e then set_level true ∷ [] else [])
      ≡ (if i == 65535 then [] else if i == e then set_level true ∷ [] else [])
event_lem i j e small next = ground arith

-- A round that ends returns its request, on a queue with a size, when the status is not stored in
-- the used ring.
pub finish-Finished :
    (q : Queue) (m : Memory) (f : Stream) (s status start len : ℕ)
    → q.size ≢ 0
    → OutsideRing q s
    → (b : Blk) × (finish q (store_byte m s status) f start len ≡ ok (some b))
      × (b.file ≡ f)
      × Finished q m [] s status start len b
unfolding finish
finish-Finished q m f s status start len sized out =
    let m0 = store_byte m s status in
    let (m', added, id, size, index) = add_used_lem q m0 start len sized in
    let same : used_idx q m0 ≡ used_idx q m = used_idx-cong q m0 m (λ x p r. ground arith) in
    let idx = (used_idx q m0 + 1) % 2 ^ 16 in
    let small : used_idx q m < 65536 = load-bound 2 m (q.used_addr + 2) in
    let b : Blk = record {
      queue = q;
      memory = m';
      file = f;
      effects = if not (idx == 0) && idx - 1 == used_event q m' then set_level true ∷ [] else [];
    } in
    let keeps = λ (x : ℕ) (o : OutsideRing q x). add_used-keeps q m0 m' start len idx x added o in
    (
      b,
      rw (added) refl,
      refl,
      record {
        same_queue = refl;
        id = rw (← same) id;
        returned_len = rw (← same) size;
        index = rw (← same) index;
        says = keeps s out ∙ ground arith;
        raised = event_lem (used_idx q m) idx (used_event q m') small (rw same refl);
        kept = λ x other o tt. keeps x o ∙ ground arith;
      },
    )

-- The same, where `m0` is the memory `m` with other bytes in the buffers only, none of which has a
-- byte of the used ring.
pub Finished-buffers :
    (q : Queue) (m m0 : Memory) (buffers : List (ℕ × ℕ)) (s status start len : ℕ) (b : Blk)
    → ((x : ℕ) → OutsideAll buffers x → m0 x ≡ m x)
    → AllApart (q.used_addr + 2) (2 + 8 * q.size) buffers
    → Finished q m0 [] s status start len b
    → Finished q m buffers s status start len b
Finished-buffers q m m0 buffers s status start len b filled apart done =
    let same : used_idx q m0 ≡ used_idx q m =
      used_idx-cong q m0 m
        (λ x p r. filled x (AllApart-OutsideAll _ _ buffers x apart p (omega arith))) in
    record {
      same_queue = done.same_queue;
      id = rw (← same) done.id;
      returned_len = rw (← same) done.returned_len;
      index = rw (← same) done.index;
      says = done.says;
      raised = rw (← same) done.raised;
      kept = λ x other o outs. done.kept x other o tt ∙ filled x outs;
    }

-- A length that was cut to 32 bits is stored as the length itself.
pub Finished-narrow :
    {q : Queue} {m : Memory} {buffers : List (ℕ × ℕ)} {s status start len : ℕ} {b : Blk}
    → Finished q m buffers s status start (len % 2 ^ 32) b
    → Finished q m buffers s status start len b
Finished-narrow done = record {
  same_queue = done.same_queue;
  id = done.id;
  returned_len = done.returned_len ∙ omega arith;
  index = done.index;
  says = done.says;
  raised = done.raised;
  kept = done.kept;
}
