-- ===== src/Mmio/Setup.antt =====
-- mmio.h: how a driver sets up a queue, and when an access to a queue's register fails.
use kthxvm.Base.{
  word_bytes, from_bytes, ℕ, zero, suc, ◌*◌, ◌/◌, ◌%◌, ◌^◌, ◌≤◌, ◌<◌, ◌≡◌, refl, ap, ◌∙◌, sym,
  arith, List, [], ◌∷◌, Bool, true, false, none, some, length, get_elem?, set, take, u64, bit_or,
  zero-bit_or, bit_or_comm, bit_or-fields, Result, ok, err, fault, ◌>>=◌, ◌↔◌,
}
use kthxvm.Queue.{Queue, set_ready, set_notify}
use kthxvm.Mmio.{
  Register, Backend, Device, queue_at, on_queue, read_register, write_register, write, queue_num,
  queue_ready, queue_desc_low, queue_desc_high, queue_avail_low, queue_avail_high, queue_used_low,
  queue_used_high, queue_notify,
}

pub value_of_bytes : (v : ℕ) → v < 2 ^ 32 → from_bytes (take 4 (word_bytes 8 v)) ≡ v
value_of_bytes v h = omega arith

module _ {ℓ} {A : Type ℓ} where
  get_elem?-set : (xs : List A) (i : ℕ) (a : A) → i < length xs → get_elem? (set xs i a) i ≡ some a
  get_elem?-set [] i a h = absurd (omega arith)
  get_elem?-set (x ∷ xs) zero a h = refl
  get_elem?-set (x ∷ xs) (suc i) a h = get_elem?-set xs i a (omega arith)

  set-set : (xs : List A) (i : ℕ) (a b : A) → set (set xs i a) i b ≡ set xs i b
  set-set [] i a b = refl
  set-set (x ∷ xs) zero a b = refl
  set-set (x ∷ xs) (suc i) a b = ap (◌∷◌ x) (set-set xs i a b)

  set_same : (xs : List A) (i : ℕ) (a : A) → get_elem? xs i ≡ some a → set xs i a ≡ xs
  set_same [] i a e = refl
  set_same (x ∷ xs) zero a e = ground arith
  set_same (x ∷ xs) (suc i) a e = ap (◌∷◌ x) (set_same xs i a e)

  inside : (xs : List A) (i : ℕ) (a : A) → get_elem? xs i ≡ some a → i < length xs
  inside [] i a e = cc
  inside (x ∷ xs) zero a e = omega arith
  inside (x ∷ xs) (suc i) a e = omega (arith, inside xs i a e)

module _ {ℓ} {A : Type ℓ} where
  none_of_outside : (xs : List A) (i : ℕ) → length xs ≤ i → get_elem? xs i ≡ none
  none_of_outside [] i h = refl
  none_of_outside (x ∷ xs) zero h = absurd (omega arith)
  none_of_outside (x ∷ xs) (suc i) h = none_of_outside xs i (omega arith)

-- What a driver's write of `v` to a register of the selected queue does to it.
abbrev pub programmed : Register → ℕ → Queue → Queue
programmed queue_num v q = record q { size = v }
programmed queue_ready v q = record q { ready = true }
programmed queue_desc_low v q = record q { desc_addr = bit_or q.desc_addr v }
programmed queue_desc_high v q = record q { desc_addr = bit_or q.desc_addr (v * 2 ^ 32) }
programmed queue_avail_low v q = record q { avail_addr = bit_or q.avail_addr v }
programmed queue_avail_high v q = record q { avail_addr = bit_or q.avail_addr (v * 2 ^ 32) }
programmed queue_used_low v q = record q { used_addr = bit_or q.used_addr v }
programmed queue_used_high v q = record q { used_addr = bit_or q.used_addr (v * 2 ^ 32) }
programmed _ v q = q

abbrev pub is_queue_register : Register → Bool
is_queue_register queue_num = true
is_queue_register queue_ready = true
is_queue_register queue_desc_low = true
is_queue_register queue_desc_high = true
is_queue_register queue_avail_low = true
is_queue_register queue_avail_high = true
is_queue_register queue_used_low = true
is_queue_register queue_used_high = true
is_queue_register _ = false

low_word : (v : ℕ) → v < 2 ^ 32 → from_bytes (take 4 (word_bytes 8 v)) * 2 ^ 0 ≡ v
low_word v h = omega arith

high_word : (v : ℕ) → v < 2 ^ 32 → u64 (from_bytes (take 4 (word_bytes 8 v)) * 2 ^ 32) ≡ v * 2 ^ 32
high_word v h = rw (value_of_bytes v h) (omega arith)

module _ {B : Type 0} (ops : Backend B) (decode : ℕ → Register) (version_1 : ℕ) where
  register_write :
      (d : Device B) (r : Register) (v size : ℕ)
      → is_queue_register r ≡ true
      → v < 2 ^ 32
      → write_register ops decode version_1 d (word_bytes 8 v) r size
        ≡ on_queue d d.queue_index (programmed r v) >>= λ d'. ok (d', [])
  unfolding write_register set_ready
  register_write d queue_num v size q h = rw (value_of_bytes v h)
  register_write d queue_ready v size q h = refl
  register_write d queue_desc_low v size q h = rw (low_word v h)
  register_write d queue_desc_high v size q h = rw (high_word v h)
  register_write d queue_avail_low v size q h = rw (low_word v h)
  register_write d queue_avail_high v size q h = rw (high_word v h)
  register_write d queue_used_low v size q h = rw (low_word v h)
  register_write d queue_used_high v size q h = rw (high_word v h)
  register_write d _ v size q h = cc

  on_queue-ok :
      (d : Device B) (i : ℕ) (q : Queue) (f : Queue → Queue)
      → get_elem? d.queues i ≡ some q
      → on_queue d i f ≡ ok (record d { queues = set d.queues i (f q) })
  unfolding on_queue queue_at
  on_queue-ok d i q f e = rw (e, queue_at)

  -- A driver's writes of four bytes, in order.
  pub run_writes : Device B → List (ℕ × ℕ) → Result (Device B)
  run_writes d [] = ok d
  run_writes d ((offset, v) ∷ ws) =
      write ops decode version_1 d (word_bytes 8 v) offset 4 >>= λ (d', es). run_writes d' ws

  -- The writes go to registers of the selected queue, with values of 32 bits.
  abbrev pub AllQueueWrites : List (ℕ × ℕ) → Type 0
  AllQueueWrites [] = Unit
  AllQueueWrites ((offset, v) ∷ ws) =
      (is_queue_register (decode offset) ≡ true) × (v < 2 ^ 32) × AllQueueWrites ws

  abbrev pub programmed_by : List (ℕ × ℕ) → Queue → Queue
  programmed_by [] q = q
  programmed_by ((offset, v) ∷ ws) q = programmed_by ws (programmed (decode offset) v q)

  -- A row of writes to registers of the selected queue programs that queue, in order, and changes
  -- nothing else: the size is replaced, the halves of an address are joined to the bits that are
  -- there, and any write to the ready register makes the queue ready.
  pub run_writes-programmed :
      (ws : List (ℕ × ℕ)) (d : Device B) (q : Queue)
      → AllQueueWrites ws
      → get_elem? d.queues d.queue_index ≡ some q
      → run_writes d ws ≡ ok (record d { queues = set d.queues d.queue_index (programmed_by ws q) })
  unfolding run_writes write
  run_writes-programmed [] d q all e =
      ap (λ (qs : List Queue). ok (record d { queues = qs }))
        (sym (set_same d.queues d.queue_index q e))
  run_writes-programmed ((offset, v) ∷ ws) d q (r, h, all) e =
      let q' = programmed (decode offset) v q in
      let i = d.queue_index in
      rw
        (
          register_write d (decode offset) v 4 r h,
          on_queue-ok d i q (programmed (decode offset) v) e,
        )
        (run_writes-programmed ws (record d { queues = set d.queues i q' }) q' all
            (get_elem?-set d.queues i q' (inside d.queues i q e))
          ∙ ap (λ (qs : List Queue). ok (record d { queues = qs }))
              (set-set d.queues i q' (programmed_by ws q')))

  -- The addresses of the three parts of a queue, each written as its low and its high half, after
  -- the queue's number and its size, and before the ready register.
  abbrev pub setup_writes : (Register → ℕ) → ℕ → ℕ → ℕ → ℕ → List (ℕ × ℕ)
  setup_writes offset n desc avail used =
      (offset queue_num, n)
      ∷ (offset queue_desc_low, desc % 2 ^ 32)
      ∷ (offset queue_desc_high, desc / 2 ^ 32)
      ∷ (offset queue_avail_low, avail % 2 ^ 32)
      ∷ (offset queue_avail_high, avail / 2 ^ 32)
      ∷ (offset queue_used_low, used % 2 ^ 32)
      ∷ (offset queue_used_high, used / 2 ^ 32)
      ∷ (offset queue_ready, 1)
      ∷ []

  halves : (a : ℕ) → bit_or (bit_or 0 (a % 2 ^ 32)) (a / 2 ^ 32 * 2 ^ 32) ≡ a
  halves a =
      rw (zero-bit_or (a % 2 ^ 32), bit_or_comm (a % 2 ^ 32) (a / 2 ^ 32 * 2 ^ 32))
        (bit_or-fields 32 (a / 2 ^ 32) (a % 2 ^ 32) (omega arith) ∙ omega arith)

  -- A driver that sets up the selected queue, when its addresses are still zero, gives it the
  -- size and the three 64-bit addresses that it means, and makes it ready; nothing else of the
  -- device changes.
  pub setup_writes-fresh :
      (offset : Register → ℕ) (d : Device B) (q : Queue) (n desc avail used : ℕ)
      → ((r : Register) → decode (offset r) ≡ r)
      → get_elem? d.queues d.queue_index ≡ some q
      → q.desc_addr ≡ 0
      → q.avail_addr ≡ 0
      → q.used_addr ≡ 0
      → n < 2 ^ 32
      → desc < 2 ^ 64
      → avail < 2 ^ 64
      → used < 2 ^ 64
      → run_writes d (setup_writes offset n desc avail used)
        ≡ ok (record d {
          queues = set d.queues d.queue_index (record q {
            size = n;
            desc_addr = desc;
            avail_addr = avail;
            used_addr = used;
            ready = true;
          });
        })
  setup_writes-fresh offset d q n desc avail used num e zd za zu hn hd ha hu =
      let ws = setup_writes offset n desc avail used in
      let reg : (r : Register)
          → is_queue_register r ≡ true
          → is_queue_register (decode (offset r)) ≡ true =
        λ r h. rw (num r) h in
      let all : AllQueueWrites ws = (
        reg queue_num refl,
        hn,
        (
          reg queue_desc_low refl,
          omega arith,
          (
            reg queue_desc_high refl,
            omega arith,
            (
              reg queue_avail_low refl,
              omega arith,
              (
                reg queue_avail_high refl,
                omega arith,
                (
                  reg queue_used_low refl,
                  omega arith,
                  (reg queue_used_high refl, omega arith, (reg queue_ready refl, omega arith, tt)),
                ),
              ),
            ),
          ),
        ),
      ) in
      let joined : (old a : ℕ)
          → old ≡ 0
          → bit_or (bit_or old (a % 2 ^ 32)) (a / 2 ^ 32 * 2 ^ 32) ≡ a =
        λ old a z. rw z (halves a) in
      let result : programmed_by ws q ≡ record q {
        size = n;
        desc_addr = desc;
        avail_addr = avail;
        used_addr = used;
        ready = true;
      } =
        rw
          (
            num queue_num,
            num queue_desc_low,
            num queue_desc_high,
            num queue_avail_low,
            num queue_avail_high,
            num queue_used_low,
            num queue_used_high,
            num queue_ready,
          )
          (λ t. record q {
            size = n;
            desc_addr = joined q.desc_addr desc zd t;
            avail_addr = joined q.avail_addr avail za t;
            used_addr = joined q.used_addr used zu t;
            ready = true;
          }) in
      run_writes-programmed ws d q all e
      ∙ ap (λ (x : Queue). ok (record d { queues = set d.queues d.queue_index x })) result

  queue_at_fault : (qs : List Queue) (i : ℕ) → (queue_at qs i ≡ err fault) ↔ (get_elem? qs i ≡ none)
  unfolding queue_at
  queue_at_fault qs i = (λ h. ground arith, λ h. ground arith)

  on_queue_fault :
      (d : Device B) (i : ℕ) (f : Queue → Queue) → length d.queues ≤ i → on_queue d i f ≡ err fault
  unfolding on_queue
  on_queue_fault d i f out = rw ((queue_at_fault d.queues i).1 (none_of_outside d.queues i out))

  notify_fault :
      (d : Device B) (v size : ℕ)
      → length d.queues ≤ v
      → v < 2 ^ 32
      → write_register ops decode version_1 d (word_bytes 8 v) queue_notify size ≡ err fault
  unfolding write_register
  notify_fault d v size out h = rw (value_of_bytes v h, on_queue_fault d v set_notify out)

  -- The selected queue is not checked: while the index that the driver has stored is not below the
  -- number of queues, every write to a queue's register and the read of the ready register are
  -- accesses outside of the array; so is a notification of a queue that there is not.
  pub queue_index-fault :
      (d : Device B) (level : Bool) (r : Register) (v size : ℕ)
      → length d.queues ≤ d.queue_index
      → is_queue_register r ≡ true
      → v < 2 ^ 32
      → length d.queues ≤ v
      → (write_register ops decode version_1 d (word_bytes 8 v) r size ≡ err fault)
        × (read_register ops decode version_1 d level queue_ready size ≡ err fault)
        × (write_register ops decode version_1 d (word_bytes 8 v) queue_notify size ≡ err fault)
  unfolding read_register
  queue_index-fault d level r v size out q h big = (
    rw (register_write d r v size q h, on_queue_fault d d.queue_index (programmed r v) out),
    rw ((queue_at_fault d.queues d.queue_index).1 (none_of_outside d.queues d.queue_index out)),
    notify_fault d v size big h,
  )
