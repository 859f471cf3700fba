-- ===== src/Blk/Scatter.antt =====
-- virtio/blk.h: the bytes of the buffers that a read request fills.
use kthxvm.Base.{
  ℕ, zero, suc, ◌+◌, ◌^◌, ◌≤◌, ◌<◌, ◌≡◌, refl, sym, ap, ap₂, ◌∙◌, false, List, [], ◌∷◌, ◌++◌, u8,
  map, length, length-append, arith,
}
use kthxvm.Memory.{
  Memory, write_bytes, read_bytes, length-read_bytes, read_bytes-write_bytes, read_bytes-cong,
  read_bytes-join, write_bytes-Outside, read_bytes-zero, Outside,
}
use kthxvm.Queue.{Queue, descriptor, desc_at}
use kthxvm.Queue.Table.{next_bound, descriptor-write_bytes}
use kthxvm.Blk.File.{Stream, stream_read, stream_read-length, stream_read_inside}
use kthxvm.Blk.Transfer.{Chain, Clear, gather, total, scatter}
use kthxvm.Blk.Finished.{OutsideAll, AllApart, AllApart-OutsideAll}

pub length-gather :
    (m : Memory) (segments : List (ℕ × ℕ)) → length (gather m segments) ≡ total segments
length-gather m [] = refl
length-gather m ((a, l) ∷ segments) =
    length-append (read_bytes m a l) (gather m segments)
    ∙ omega (arith, length-read_bytes l m a, length-gather m segments)

-- Bytes that were read are bytes.
pub u8-read_bytes : (n : ℕ) (m : Memory) (a : ℕ) → map u8 (read_bytes m a n) ≡ read_bytes m a n
unfolding read_bytes
u8-read_bytes zero m a = refl
u8-read_bytes (suc n) m a = ap₂ ◌∷◌ (omega arith) (u8-read_bytes n m (a + 1))

map-u8_append : (xs ys : List ℕ) → map u8 (xs ++ ys) ≡ map u8 xs ++ map u8 ys
map-u8_append [] ys = refl
map-u8_append (x ∷ xs) ys = ap (λ (zs : List ℕ). u8 x ∷ zs) (map-u8_append xs ys)

pub u8-gather :
    (m : Memory) (segments : List (ℕ × ℕ)) → map u8 (gather m segments) ≡ gather m segments
u8-gather m [] = refl
u8-gather m ((a, l) ∷ segments) =
    map-u8_append (read_bytes m a l) (gather m segments)
    ∙ ap₂ ◌++◌ (u8-read_bytes l m a) (u8-gather m segments)

-- No two of the buffers have a byte in common.
abbrev pub Disjoint : List (ℕ × ℕ) → Type 0
Disjoint [] = Unit
Disjoint ((a, l) ∷ segments) = AllApart a l segments × Disjoint segments

-- Bytes that are the same at every address of a run are the same in the buffers.
pub gather-cong :
    (segments : List (ℕ × ℕ)) (m m' : Memory) (a n b k : ℕ)
    → ((x : ℕ) → Outside a n x → Outside b k x → m' x ≡ m x)
    → AllApart a n segments
    → AllApart b k segments
    → gather m' segments ≡ gather m segments
gather-cong [] m m' a n b k h p r = refl
gather-cong ((c, l) ∷ segments) m m' a n b k h (p, ps) (r, rs) =
    ap₂ ◌++◌ (read_bytes-cong l m' m c (λ x low high. h x (omega arith) (omega arith)))
      (gather-cong segments m m' a n b k h ps rs)

-- Outside of the buffers no byte is changed.
pub scatter-OutsideAll :
    (segments : List (ℕ × ℕ)) (m : Memory) (f : Stream) (x : ℕ)
    → OutsideAll segments x
    → (scatter m f segments).0 x ≡ m x
scatter-OutsideAll [] m f x out = refl
scatter-OutsideAll ((a, l) ∷ segments) m f x (here, out) =
    let bytes = (stream_read f l).1 in
    scatter-OutsideAll segments (write_bytes m a bytes) (stream_read f l).0 x out
    ∙ write_bytes-Outside bytes m a x (omega (arith, stream_read-length f l))

-- Buffers with no byte in common, filled from inside of a file that has not failed, have its
-- bytes from its position on, and the position is behind them.
pub scatter_lem :
    (segments : List (ℕ × ℕ)) (m : Memory) (f : Stream)
    → f.failed ≡ false
    → f.pos + total segments ≤ f.size
    → Disjoint segments
    → (gather (scatter m f segments).0 segments ≡ read_bytes f.content f.pos (total segments))
      × ((scatter m f segments).1 ≡ record f { pos = f.pos + total segments })
scatter_lem [] m f good inside apart =
    let here : f.pos ≡ f.pos + 0 = omega arith in
    (sym (read_bytes-zero f.content f.pos), λ i. record f { pos = here i })
scatter_lem ((a, l) ∷ segments) m f good inside (apart, disjoint) =
    let g : Stream = record f { pos = f.pos + l } in
    let bytes = read_bytes f.content f.pos l in
    let m1 = write_bytes m a bytes in
    let step : scatter m f ((a, l) ∷ segments) ≡ scatter m1 g segments =
      ap (λ (r : Stream × List ℕ). scatter (write_bytes m a r.1) r.0 segments)
        (stream_read_inside f l good (omega arith)) in
    let (filled, behind) = scatter_lem segments m1 g good (omega arith) disjoint in
    let stays : read_bytes (scatter m1 g segments).0 a l ≡ read_bytes m1 a l =
      read_bytes-cong l (scatter m1 g segments).0 m1 a (λ x p r.
        scatter-OutsideAll segments m1 g x (AllApart-OutsideAll a l segments x apart p r)) in
    let stored : read_bytes m1 a l ≡ bytes =
      ap (λ (n : ℕ). read_bytes m1 a n) (sym (length-read_bytes l f.content f.pos))
      ∙ read_bytes-write_bytes bytes m a
      ∙ u8-read_bytes l f.content f.pos in
    let sum : f.pos + l + total segments ≡ f.pos + (l + total segments) = omega arith in
    (
      ap (λ (r : Memory × Stream). gather r.0 ((a, l) ∷ segments)) step
          ∙ ap₂ ◌++◌ (stays ∙ stored) filled
          ∙ read_bytes-join f.content f.pos l (total segments),
      ap (λ (r : Memory × Stream). r.1) step ∙ behind ∙ λ i. record f { pos = sum i },
    )

-- The descriptor at which a chain ends is in the table.
pub Chain-last :
    (segments : List (ℕ × ℕ)) (m : Memory) (q : Queue) (i last : ℕ)
    → i < 2 ^ 16
    → Chain m q (desc_at q i) segments last
    → (j : ℕ) × (j < 2 ^ 16) × (last ≡ desc_at q j)
Chain-last [] m q i last small (flag, here) = (i, small, sym here)
Chain-last ((a, l) ∷ segments) m q i last small (flag, at, size, c) =
    Chain-last segments m q (descriptor m (desc_at q i)).next last (next_bound m (desc_at q i)) c

-- Buffers outside of the table leave its descriptors as they are.
pub descriptor-scatter :
    (segments : List (ℕ × ℕ)) (q : Queue) (m : Memory) (f : Stream) (j : ℕ)
    → Clear q segments
    → j < 2 ^ 16
    → descriptor (scatter m f segments).0 (desc_at q j) ≡ descriptor m (desc_at q j)
descriptor-scatter [] q m f j clear small = refl
descriptor-scatter ((a, l) ∷ segments) q m f j (apart, clear) small =
    let bytes = (stream_read f l).1 in
    descriptor-scatter segments q (write_bytes m a bytes) (stream_read f l).0 j clear small
    ∙ descriptor-write_bytes q m a j l bytes (stream_read-length f l) apart small
