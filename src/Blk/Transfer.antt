-- ===== src/Blk/Transfer.antt =====
-- virtio/blk.h: what requests do to the file and to the memory.
use kthxvm.Base.{
  ℕ, zero, suc, ◌+◌, ◌*◌, ◌%◌, ◌^◌, ◌<◌, ◌≡◌, refl, true, false, some, List, [], ◌∷◌, ◌++◌, u32,
  has, length, arith,
}
use kthxvm.Memory.{Memory, write_bytes, read_bytes, Apart}
use kthxvm.Queue.{Queue, descriptor, desc_at}
use kthxvm.Queue.Table.{next_bound, descriptor-write_bytes}
use kthxvm.Blk.File.{
  stream_read-length, Stream, stream_read, stream_write, stream_write-append, stream_write-nil,
}
use kthxvm.Blk.{segments_in, segments_out}

-- From the descriptor at `p`, the flags mark these data buffers, of an address and a length, and
-- then the descriptor `last`.
abbrev pub Chain : Memory → Queue → ℕ → List (ℕ × ℕ) → ℕ → Type 0
Chain m q p [] last = (has (descriptor m p).flags 0x1 ≡ false) × (p ≡ last)
Chain m q p ((addr, len) ∷ segments) last =
    (has (descriptor m p).flags 0x1 ≡ true)
    × ((descriptor m p).addr ≡ addr)
    × ((descriptor m p).len ≡ len)
    × Chain m q (desc_at q (descriptor m p).next) segments last

-- The bytes in the buffers, and their number.
abbrev pub gather : Memory → List (ℕ × ℕ) → List ℕ
gather m [] = []
gather m ((addr, len) ∷ segments) = read_bytes m addr len ++ gather m segments

abbrev pub total : List (ℕ × ℕ) → ℕ
total [] = 0
total ((addr, len) ∷ segments) = len + total segments

pub segments_out_lem :
    (segments : List (ℕ × ℕ)) (n : ℕ) (q : Queue) (m : Memory) (f : Stream) (p last len : ℕ)
    → Chain m q p segments last
    → length segments < n
    → len < 2 ^ 32
    → segments_out n q m f p len
      ≡ some (stream_write f (gather m segments), last, (len + total segments) % 2 ^ 32)
unfolding segments_out
segments_out_lem segments zero q m f p last len c fuel h = absurd (omega arith)
segments_out_lem [] (suc n) q m f p last len (flag, here) fuel h =
    let same : (len + 0) % 2 ^ 32 ≡ len = omega arith in
    rw (flag, here, stream_write-nil f, same) refl
segments_out_lem ((a, l) ∷ segments) (suc n) q m f p last len (flag, at, size, c) fuel h =
    let f' = stream_write f (read_bytes m a l) in
    let ih =
      segments_out_lem segments n q m f' (desc_at q (descriptor m p).next) last (u32 (len + l)) c
        (omega arith) (omega arith) in
    let sum : (u32 (len + l) + total segments) % 2 ^ 32 ≡ (len + (l + total segments)) % 2 ^ 32 =
      omega arith in
    rw (flag, at, size, ih, sum, stream_write-append f (read_bytes m a l) (gather m segments)) refl

-- No buffer lies on the table of descriptors, which has at most 2^16 of them.
abbrev pub Clear : Queue → List (ℕ × ℕ) → Type 0
Clear q [] = Unit
Clear q ((addr, len) ∷ segments) = Apart addr len q.desc_addr (16 * 2 ^ 16) × Clear q segments

-- Buffers filled from a file, in order.
abbrev pub scatter : Memory → Stream → List (ℕ × ℕ) → Memory × Stream
scatter m f [] = (m, f)
scatter m f ((addr, len) ∷ segments) =
    let (f', bytes) = stream_read f len in scatter (write_bytes m addr bytes) f' segments

Chain-write_bytes :
    (segments : List (ℕ × ℕ)) (q : Queue) (m m' : Memory) (i last : ℕ)
    → ((j : ℕ) → j < 2 ^ 16 → descriptor m' (desc_at q j) ≡ descriptor m (desc_at q j))
    → i < 2 ^ 16
    → Chain m q (desc_at q i) segments last
    → Chain m' q (desc_at q i) segments last
Chain-write_bytes [] q m m' i last same small (flag, here) = (rw (same i small) flag, here)
Chain-write_bytes ((a, l) ∷ segments) q m m' i last same small (flag, at, size, c) =
    let later =
      Chain-write_bytes segments q m m' (descriptor m (desc_at q i)).next last same
        (next_bound m (desc_at q i)) c in
    (rw (same i small) flag, rw (same i small) at, rw (same i small) size, rw (same i small) later)

pub segments_in_lem :
    (segments : List (ℕ × ℕ)) (n : ℕ) (q : Queue) (m : Memory) (f : Stream) (i last len : ℕ)
    → Chain m q (desc_at q i) segments last
    → Clear q segments
    → i < 2 ^ 16
    → length segments < n
    → len < 2 ^ 32
    → let (m', f') = scatter m f segments in
      segments_in n q m f (desc_at q i) len ≡ some (m', f', last, (len + total segments) % 2 ^ 32)
unfolding segments_in
segments_in_lem segments zero q m f i last len c clear small fuel h = absurd (omega arith)
segments_in_lem [] (suc n) q m f i last len (flag, here) clear small fuel h =
    let same : (len + 0) % 2 ^ 32 ≡ len = omega arith in rw (flag, here, same) refl
segments_in_lem ((a, l) ∷ segments) (suc n) q m f i last len (flag, at, size, c) (apart, clear)
      small fuel h =
    let bytes = (stream_read f l).1 in
    let m' = write_bytes m a bytes in
    let kept = λ (j : ℕ) (s : j < 2 ^ 16).
      descriptor-write_bytes q m a j l bytes (stream_read-length f l) apart s in
    let following = (descriptor m (desc_at q i)).next in
    let c' =
      Chain-write_bytes segments q m m' following last (λ j s. kept j s)
        (next_bound m (desc_at q i)) c in
    let ih =
      segments_in_lem segments n q m' (stream_read f l).0 following last (u32 (len + l)) c' clear
        (next_bound m (desc_at q i)) (omega arith) (omega arith) in
    let sum : (u32 (len + l) + total segments) % 2 ^ 32 ≡ (len + (l + total segments)) % 2 ^ 32 =
      omega arith in
    rw (flag, at, size, kept i small, size, ih, sum) refl
