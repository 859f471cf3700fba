-- ===== src/Net/Transmit.antt =====
-- net.h: the frame that is sent.
use kthxvm.Base.{
  ℕ, zero, suc, ◌+◌, ◌%◌, ◌≤◌, ◌<◌, ◌≡◌, ◌≢◌, refl, ap, true, false, some, List, [], ◌∷◌, ◌++◌,
  length, length-append, has, ltb, u32, ok, ◌>>=◌, set_level, arith,
}
use mathlib.Core.List.{append_assoc}
use kthxvm.Memory.{Memory, read_bytes, length-read_bytes}
use kthxvm.Queue.{Queue, descriptor, desc_at, avail_idx, avail_ring, add_used}
use kthxvm.Queue.Next.{next-some, avail_id-moved}
use kthxvm.Net.{gather_frame, return_frame, update_tx}

-- From the descriptor at `p`, the chain has the buffer (addr, len), and then these others.
abbrev pub Frame : Memory → Queue → ℕ → ℕ × ℕ → List (ℕ × ℕ) → Type 0
Frame m q p (addr, len) [] =
    ((descriptor m p).addr ≡ addr)
    × ((descriptor m p).len ≡ len)
    × (has (descriptor m p).flags 0x1 ≡ false)
Frame m q p (addr, len) (b ∷ bs) =
    ((descriptor m p).addr ≡ addr)
    × ((descriptor m p).len ≡ len)
    × (has (descriptor m p).flags 0x1 ≡ true)
    × Frame m q (desc_at q (descriptor m p).next) b bs

abbrev pub bytes : Memory → ℕ × ℕ → List (ℕ × ℕ) → List ℕ
bytes m (addr, len) [] = read_bytes m addr len
bytes m (addr, len) (b ∷ bs) = read_bytes m addr len ++ bytes m b bs

abbrev pub size : ℕ × ℕ → List (ℕ × ℕ) → ℕ
size (addr, len) [] = len
size (addr, len) (b ∷ bs) = len + size b bs

gather_frame_lem :
    (bs : List (ℕ × ℕ)) (b : ℕ × ℕ) (room n : ℕ) (q : Queue) (m : Memory) (p : ℕ) (buffer : List ℕ)
    → Frame m q p b bs
    → length bs < n
    → length buffer + size b bs ≤ room
    → gather_frame room n q m p buffer ≡ ok (some (buffer ++ bytes m b bs))
unfolding gather_frame
gather_frame_lem bs b room zero q m p buffer f fuel fits = absurd (omega arith)
gather_frame_lem [] (a, l) room (suc n) q m p buffer (at, len, flag) fuel fits =
    let all = length-append buffer (read_bytes m a l) in
    let small : ltb room (length (buffer ++ read_bytes m a l)) ≡ false =
      ground (arith, all, length-read_bytes l m a) in
    rw (at, len, flag, small) refl
gather_frame_lem (b ∷ bs) (a, l) room (suc n) q m p buffer (at, len, flag, f) fuel fits =
    let buffer' = buffer ++ read_bytes m a l in
    let all : length buffer' ≡ length buffer + l =
      omega (arith, length-append buffer (read_bytes m a l), length-read_bytes l m a) in
    let small : ltb room (length buffer') ≡ false = ground (arith, all) in
    let ih =
      gather_frame_lem bs b room n q m (desc_at q (descriptor m p).next) buffer' f (omega arith)
        (omega arith) in
    rw (at, len, flag, small, ih)
      (ap (λ (xs : List ℕ). ok (some xs)) (append_assoc buffer (read_bytes m a l) (bytes m b bs)))

pub Frame-moved :
    (bs : List (ℕ × ℕ)) (b : ℕ × ℕ) (q : Queue) (m : Memory) (p l : ℕ)
    → Frame m q p b bs
    → Frame m (record q { last_avail = l }) p b bs
Frame-moved [] (a, n) q m p l f = f
Frame-moved (b ∷ bs) (a, n) q m p l (at, len, flag, f) =
    (at, len, flag, Frame-moved bs b q m (desc_at q (descriptor m p).next) l f)

-- On a ready queue with a frame that the driver has published, in a chain that has an end and no
-- more bytes than the buffer has room for, the bytes of the chain are sent as one frame, in order,
-- and the chain is returned with the number of bytes that the tap device took; the line is raised.
pub update_tx_lem :
    (send : List ℕ → ℕ) (room n : ℕ) (q : Queue) (m : Memory) (b : ℕ × ℕ) (bs : List (ℕ × ℕ))
    → q.ready ≡ true
    → q.size ≢ 0
    → q.last_avail < avail_idx q m
    → Frame m q (desc_at q (avail_ring q m (q.last_avail % q.size))) b bs
    → length bs < n
    → size b bs ≤ room
    → let q' = record q { last_avail = q.last_avail + 1 } in
      update_tx send room n q m ≡ (
        add_used q' m (avail_ring q m (q.last_avail % q.size)) (u32 (send (bytes m b bs)))
        >>= λ (m', idx). ok (
            some (record {
              queue = q';
              memory = m';
              frames = bytes m b bs ∷ [];
              effects = set_level true ∷ [];
            })))
unfolding update_tx return_frame
update_tx_lem send room n q m b bs ready s lt f fuel fits =
    let q' = record q { last_avail = q.last_avail + 1 } in
    let p = desc_at q (avail_ring q m (q.last_avail % q.size)) in
    let whole =
      gather_frame_lem bs b room n q' m p [] (Frame-moved bs b q m p (q.last_avail + 1) f) fuel
        (omega arith) in
    rw (next-some q m ready s lt, avail_id-moved q m s lt, whole, update_tx, return_frame) refl
