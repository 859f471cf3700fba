-- ===== src/Net/Receive.antt =====
-- net.h: the frame that is received.
use kthxvm.Base.{
  ℕ, zero, suc, ◌+◌, ◌*◌, ◌-◌, ◌%◌, ◌^◌, ◌≤◌, ◌<◌, ◌≡◌, ◌≢◌, refl, sym, ap, ap₂, ◌∙◌, Bool,
  if◌then◌else◌, Bool-cases, inl, inr, true, false, some, List, [], ◌∷◌, ◌++◌, length,
  length-append, ltb, ◌==◌, u32, sub64, min, take, drop, slice, take-nil, drop-nil, take-take,
  drop-take, drop-drop, length-take_le, length-drop, take-append_length, ok, ◌>>=◌, set_level,
  arith,
}
use kthxvm.Memory.{Memory, write_bytes, write_bytes-nil, Apart, load-bound}
use kthxvm.Queue.{Queue, descriptor, desc_at, avail_idx, avail_ring, add_used}
use kthxvm.Queue.Table.{next_bound, descriptor-write_bytes}
use kthxvm.Queue.Next.{next-some, avail_id-moved}
use kthxvm.Net.{scatter_frame, return_buffer, update_rx}
use kthxvm.Net.Transmit.{Frame, Frame-moved, size}

-- No buffer of the chain lies on the table of descriptors.
abbrev pub Clear : Queue → ℕ × ℕ → List (ℕ × ℕ) → Type 0
Clear q (addr, len) [] = Apart addr len q.desc_addr (16 * 2 ^ 16)
Clear q (addr, len) (b ∷ bs) = Apart addr len q.desc_addr (16 * 2 ^ 16) × Clear q b bs

-- The bytes in the buffers one after the other, as far as they go.
abbrev pub delivered : Memory → List ℕ → ℕ × ℕ → List (ℕ × ℕ) → Memory
delivered m bytes (addr, len) [] = write_bytes m addr (take len bytes)
delivered m bytes (addr, len) (b ∷ bs) =
    delivered (write_bytes m addr (take len bytes)) (drop len bytes) b bs

delivered-nil : (bs : List (ℕ × ℕ)) (m : Memory) (b : ℕ × ℕ) → delivered m [] b bs ≡ m
delivered-nil [] m (a, l) = rw (take-nil l) (write_bytes-nil m a)
delivered-nil (b ∷ bs) m (a, l) =
    rw (take-nil l, drop-nil l, write_bytes-nil m a) (delivered-nil bs m b)

Frame-write_bytes :
    (bs : List (ℕ × ℕ)) (b : ℕ × ℕ) (q : Queue) (m m' : Memory) (i : ℕ)
    → ((j : ℕ) → j < 2 ^ 16 → descriptor m' (desc_at q j) ≡ descriptor m (desc_at q j))
    → i < 2 ^ 16
    → Frame m q (desc_at q i) b bs
    → Frame m' q (desc_at q i) b bs
Frame-write_bytes [] (a, l) q m m' i same small (at, len, flag) =
    (rw (same i small) at, rw (same i small) len, rw (same i small) flag)
Frame-write_bytes (b ∷ bs) (a, l) q m m' i same small (at, len, flag, f) =
    let later =
      Frame-write_bytes bs b q m m' (descriptor m (desc_at q i)).next same
        (next_bound m (desc_at q i)) f in
    (rw (same i small) at, rw (same i small) len, rw (same i small) flag, rw (same i small) later)

if_same {ℓ} : {A : Type ℓ} (c : Bool) (x : A) → (if c then x else x) ≡ x
if_same true x = refl
if_same false x = refl

-- The loop stores what is left of the frame into the chain.
scatter_frame_lem :
    (bs : List (ℕ × ℕ)) (b : ℕ × ℕ) (buffer : List ℕ) (end n : ℕ) (q : Queue) (m : Memory)
    (i len : ℕ)
    → Frame m q (desc_at q i) b bs
    → Clear q b bs
    → i < 2 ^ 16
    → length bs < n
    → len ≤ end
    → end ≤ length buffer
    → length buffer < 2 ^ 32
    → scatter_frame buffer end n q m (desc_at q i) len
      ≡ ok (
          some (
            delivered m (take (end - len) (drop len buffer)) b bs,
            len + min (end - len) (size b bs),
          ))
unfolding scatter_frame
scatter_frame_lem bs b buffer end zero q m i len f clear small fuel h fits bound =
    absurd (omega arith)
scatter_frame_lem [] (a, l) buffer end (suc n) q m i len (at, length', flag) clear small fuel h fits
      bound =
    let piece = slice buffer len (min (end - len) l) in
    let left : u32 (sub64 end len) ≡ end - len = omega arith in
    let same =
      descriptor-write_bytes q m a i l piece
        (omega (arith, length-take_le (min (end - len) l) (drop len buffer))) clear small in
    let ends = take-take (end - len) l (drop len buffer) in
    let inside : ltb (length buffer) (len + min (end - len) l) ≡ false = ground arith in
    let moved : u32 (len + min (end - len) l) ≡ len + min (end - len) l = omega arith in
    rw (at, length', left, same, flag, inside, moved, ends)
      (if_same (len + min (end - len) l == end) _)
scatter_frame_lem (b ∷ bs) (a, l) buffer end (suc n) q m i len (at, length', flag, f) (apart, clear)
      small fuel h fits bound =
    let p = desc_at q i in
    let wrote = min (end - len) l in
    let fs = take (end - len) (drop len buffer) in
    let piece = slice buffer len wrote in
    let left : u32 (sub64 end len) ≡ end - len = omega arith in
    let kept = λ (j : ℕ) (s : j < 2 ^ 16).
      descriptor-write_bytes q m a j l piece (omega (arith, length-take_le wrote (drop len buffer)))
        apart s in
    let m' = write_bytes m a piece in
    let ends : piece ≡ take l fs = take-take (end - len) l (drop len buffer) in
    let inside : ltb (length buffer) (len + wrote) ≡ false = ground arith in
    let moved : u32 (len + wrote) ≡ len + wrote = omega arith in
    let behind : drop l fs ≡ take (end - len - l) (drop (len + l) buffer) =
      drop-take (end - len) l (drop len buffer)
      ∙ ap (take (end - len - l)) (drop-drop len l buffer) in
    elim (Bool-cases (len + wrote == end)) [
      | inl stops ↦
          let none_left : end - len - l ≡ 0 = ground arith in
          let all : len + min (end - len) (l + size b bs) ≡ len + wrote = ground arith in
          rw (at, length', left, inside, moved, stops, behind, none_left, delivered-nil, all, ends)
            refl
      | inr goes ↦
          let whole : wrote ≡ l = ground arith in
          let following = (descriptor m p).next in
          let f' = Frame-write_bytes bs b q m m' following (λ j s. kept j s) (next_bound m p) f in
          let ih =
            scatter_frame_lem bs b buffer end n q m' following (len + wrote) f' clear
              (next_bound m p) (omega arith) (omega arith) fits bound in
          let rest : take (end - (len + wrote)) (drop (len + wrote) buffer) ≡ drop l fs =
            ap₂ (λ (k w : ℕ). take k (drop w buffer)) (omega (arith, whole)) (omega (arith, whole))
            ∙ sym behind in
          let count : len + wrote + min (end - (len + wrote)) (size b bs)
              ≡ len + min (end - len) (l + size b bs) =
            omega (arith, whole) in
          rw (at, length', left, inside, moved, goes, kept i small, flag, ih)
            (λ t. ok (some (delivered (write_bytes m a (ends t)) (rest t) b bs, count t)))
    ]

Clear-moved :
    (bs : List (ℕ × ℕ)) (b : ℕ × ℕ) (q : Queue) (l : ℕ)
    → Clear q b bs
    → Clear (record q { last_avail = l }) b bs
Clear-moved [] (a, n) q l apart = apart
Clear-moved (b ∷ bs) (a, n) q l (apart, clear) = (apart, Clear-moved bs b q l clear)

-- On a ready queue with a size, with a chain of buffers that the driver has published, which has
-- an end and lies apart from the table of descriptors: a frame that fits into the array, of fewer
-- than 2^32 bytes, is stored into the buffers of the chain, in order, as far as they go, if there
-- is a unit of fuel for each; the chain is returned with the number of bytes stored, and the line
-- is raised.
pub update_rx_lem :
    (frame buffer : List ℕ) (n : ℕ) (q : Queue) (m : Memory) (b : ℕ × ℕ) (bs : List (ℕ × ℕ))
    → q.ready ≡ true
    → q.size ≢ 0
    → q.last_avail < avail_idx q m
    → Frame m q (desc_at q (avail_ring q m (q.last_avail % q.size))) b bs
    → Clear q b bs
    → length bs < n
    → length frame ≤ length buffer
    → length buffer < 2 ^ 32
    → let q' = record q { last_avail = q.last_avail + 1 } in
      update_rx true (some frame) n q buffer m ≡ (
        add_used q'
          (delivered m frame b bs)
          (avail_ring q m (q.last_avail % q.size))
          (min (length frame) (size b bs))
        >>= λ (m', idx). ok (
            some (record {
              queue = q';
              memory = m';
              buffer = frame ++ drop (length frame) buffer;
              effects = set_level true ∷ [];
            })))
unfolding update_rx return_buffer
update_rx_lem frame buffer n q m b bs ready s lt f clear fuel fits bound =
    let q' = record q { last_avail = q.last_avail + 1 } in
    let id = avail_ring q m (q.last_avail % q.size) in
    let filled = frame ++ drop (length frame) buffer in
    let long : length frame ≤ length filled =
      omega (arith, length-append frame (drop (length frame) buffer)) in
    let same : length filled ≡ length buffer = omega (
      arith,
      length-append frame (drop (length frame) buffer),
      length-drop (length frame) buffer,
    ) in
    let walk =
      scatter_frame_lem bs b filled (length frame) n q' m id 0
        (Frame-moved bs b q m (desc_at q id) (q.last_avail + 1) f)
        (Clear-moved bs b q (q.last_avail + 1) clear)
        (omega (arith, load-bound 2 m (q.avail_addr + 4 + 2 * (q.last_avail % q.size)))) fuel
        (omega arith) long (omega (arith, same)) in
    let whole : take (length frame - 0) (drop 0 filled) ≡ frame =
      ap (λ (k : ℕ). take k filled) (omega arith)
      ∙ take-append_length frame (drop (length frame) buffer) in
    let count : 0 + min (length frame - 0) (size b bs) ≡ min (length frame) (size b bs) =
      omega arith in
    rw
      (
        next-some q m ready s lt,
        avail_id-moved q m s lt,
        walk,
        whole,
        count,
        update_rx,
        return_buffer,
      )
      refl
