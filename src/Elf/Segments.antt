-- ===== src/Elf/Segments.antt =====
-- elf.h: what the segments of a file leave in the memory.
use kthxvm.Base.{
  ℕ, zero, suc, ◌+◌, ◌-◌, ◌*◌, ◌^◌, ◌≤◌, ◌<◌, ◌≡◌, refl, sym, ap, subst, ◌∙◌, Bool-cases, inl, inr,
  true, false, ◌&&◌, ◌||◌, List, [], ◌∷◌, length, slice, u8, ltb, leb, ◌==◌, if◌then◌else◌, arith,
}
use kthxvm.Memory.{Memory, write_bytes-read_bytes}
use kthxvm.Blk.File.{Stream, seek-stream_read}
use kthxvm.Elf.{Ehdr, Phdr, is_bad, load_segment, load_segments}

-- What the byte at `x` is after these segments of the file: the last segment over it counts.
abbrev pub image : Memory → List Phdr → ℕ → ℕ → ℕ
image content [] x byte = byte
image content (p ∷ ps) x byte = image content ps x (
    if p.is_load && leb p.paddr x && ltb x (p.paddr + p.filesz)
    then u8 (content (p.offset + (x - p.paddr)))
    else byte)

-- A segment that is loaded has bytes, no more than it has room, and all of them are in the `size`
-- bytes of the file.
abbrev pub Loadable : ℕ → Phdr → Type 0
Loadable size p =
    p.is_load ≡ true
    → (0 < p.filesz) × (p.filesz ≤ p.memsz) × (p.offset + p.filesz ≤ size) × (p.offset < 2 ^ 63)

abbrev pub AllLoadable : ℕ → List Phdr → Type 0
AllLoadable size [] = Unit
AllLoadable size (p ∷ ps) = Loadable size p × AllLoadable size ps

module _ (phdr_size : ℕ) (phdr : List ℕ → Phdr) where
  -- The `n` segments from `i` on that the table has.
  abbrev pub segments : ℕ → ℕ → List ℕ → List Phdr
  segments zero i buf = []
  segments (suc n) i buf = phdr (slice buf (i * phdr_size) phdr_size) ∷ segments n (i + 1) buf

-- One turn of the loop keeps the file, and stores the segment.
load_segment_lem :
    (f : Stream) (m : Memory) (p : Phdr)
    → f.failed ≡ false
    → Loadable f.size p
    → let (f', m') = load_segment f m p in
      (f'.failed ≡ false)
      × (f'.content ≡ f.content)
      × (f'.size ≡ f.size)
      × (is_bad p ≡ false)
      × ((x : ℕ)
          → m' x ≡ (
              if p.is_load && leb p.paddr x && ltb x (p.paddr + p.filesz)
              then u8 (f.content (p.offset + (x - p.paddr)))
              else m x))
load_segment_lem f m p good loadable = elim (Bool-cases p.is_load) [
  | inl loads ↦
      let (some_bytes, fits, inside, small) = loadable loads in
      let whole = seek-stream_read f p.offset p.filesz good small inside in
      let fine : (ltb p.memsz p.filesz || p.filesz == 0) ≡ false = ground arith in
      rw (loads, whole, fine)
        (
          good,
          refl,
          refl,
          refl,
          λ x. write_bytes-read_bytes m f.content p.paddr p.offset p.filesz x,
        )
  | inr skips ↦ rw skips (good, refl, refl, refl, λ x. refl)
]

row : (i s k l : ℕ) → (i + suc k) * s ≤ l → i * s + s ≤ l
row i s k l h = grind arith

module _ (ehdr_size : ℕ) (ehdr : List ℕ → Ehdr) (phdr_size : ℕ) (phdr : List ℕ → Phdr) where
  -- The loop over loadable segments stores each of them, and goes on behind them.
  pub load_segments-prefix :
      (k n i : ℕ) (buf : List ℕ) (f : Stream) (m : Memory)
      → f.failed ≡ false
      → (i + k) * phdr_size ≤ length buf
      → AllLoadable f.size (segments phdr_size phdr k i buf)
      → (f' : Stream) × (m' : Memory) × (load_segments ehdr_size ehdr phdr_size phdr
            (k + n)
            i
            buf
            f
            m
          ≡ load_segments ehdr_size ehdr phdr_size phdr n (i + k) buf f' m')
        × ((x : ℕ) → m' x ≡ image f.content (segments phdr_size phdr k i buf) x (m x))
  unfolding load_segments
  load_segments-prefix zero n i buf f m good room all =
      let same : 0 + n ≡ n = omega arith in
      let here : i + 0 ≡ i = omega arith in (f, m, rw (same, here) refl, λ x. refl)
  load_segments-prefix (suc k) n i buf f m good room (first, all) =
      let p = phdr (slice buf (i * phdr_size) phdr_size) in
      let (f1, m1) = load_segment f m p in
      let (good1, content1, size1, fine, stored) = load_segment_lem f m p good first in
      let inside : ltb (length buf) (i * phdr_size + phdr_size) ≡ false =
        ground (arith, row i phdr_size k (length buf) room) in
      let once : suc k + n ≡ suc (k + n) = omega arith in
      let further : i + suc k ≡ i + 1 + k = omega arith in
      let (f', m', rest, image') =
        load_segments-prefix k n (i + 1) buf f1 m1 good1 (rw (sym further) room)
          (subst (λ s. AllLoadable s (segments phdr_size phdr k (i + 1) buf)) (sym size1) all) in
      let loop = load_segments ehdr_size ehdr phdr_size phdr in
      let step : loop (suc (k + n)) i buf f m ≡ loop (k + n) (i + 1) buf f1 m1 =
        rw (inside, fine) refl in
      (
        f',
        m',
        ap (λ (c : ℕ). loop c i buf f m) once
            ∙ step
            ∙ rest
            ∙ ap (λ (c : ℕ). loop n c buf f' m') (sym further),
        λ x.
            image' x
            ∙ ap (λ (c : Memory). image c (segments phdr_size phdr k (i + 1) buf) x (m1 x)) content1
            ∙ ap (image f.content (segments phdr_size phdr k (i + 1) buf) x) (stored x),
      )
