-- ===== src/Elf/Load.antt =====
-- elf.h: the whole of `load`.
use kthxvm.Base.{
  leb, ℕ, suc, ◌+◌, ◌-◌, ◌*◌, ◌^◌, ◌≤◌, ◌<◌, ◌≡◌, refl, sym, ap, ◌∙◌, true, false, some, List, ◌++◌,
  length, slice, replicate, ltb, if◌then◌else◌, ok, ◌>>=◌, arith,
}
use mathlib.Core.List.{append-nil}
use native.Mathlib.Nat.{mul_comm, mul-le-mul_left}
use kthxvm.Memory.{Memory, read_bytes, length-read_bytes}
use kthxvm.Blk.File.{Stream, seek-stream_read, stream_read_inside}
use kthxvm.Elf.{Ehdr, Phdr, is_bad, filled, minus_einval, load_segments, load}
use kthxvm.Elf.Segments.{segments, AllLoadable, image, load_segments-prefix}

filled-read_bytes : (n : ℕ) (c : Memory) (p : ℕ) → filled n (read_bytes c p n) ≡ read_bytes c p n
filled-read_bytes n c p =
    let no_gap : n - length (read_bytes c p n) ≡ 0 = omega (arith, length-read_bytes n c p) in
    ap (λ (k : ℕ). read_bytes c p n ++ replicate k 0) no_gap ∙ append-nil (read_bytes c p n)

row : (j s n p l : ℕ) → j ≤ n → p ≡ s → l ≡ p * n → (0 + j) * s ≤ l
row j s n p l h e d =
    let shape : (0 + j) * s ≡ s * j = mul_comm (0 + j) s ∙ ap (λ (t : ℕ). s * t) (omega arith) in
    let whole : l ≡ s * n = d ∙ ap (λ (t : ℕ). t * n) e in
    omega (arith, shape, whole, mul-le-mul_left s h)

row_end : (k s n p l : ℕ) → k < n → p ≡ s → l ≡ p * n → ltb l (k * s + s) ≡ false
row_end k s n p l h e d =
    let all = row (suc k) s n p l h e d in
    let shape : (0 + suc k) * s ≡ k * s + s = grind arith in ground (arith, all, shape)

module _ (ehdr_size : ℕ) (ehdr : List ℕ → Ehdr) (phdr_size : ℕ) (phdr : List ℕ → Phdr) where
  abbrev pub header_of : Stream → Ehdr
  header_of file = ehdr (read_bytes file.content file.pos ehdr_size)

  -- The table of the segments, and its segments from `i` on.
  abbrev pub table_of : Stream → List ℕ
  table_of file = let h = header_of file in read_bytes file.content h.phoff (h.phentsize * h.phnum)

  abbrev pub segments_of : Stream → ℕ → ℕ → List Phdr
  segments_of file n i = segments phdr_size phdr n i (table_of file)

  -- A file with a header at its position, and with a table of segments in it.
  pub record IsElf (file : Stream) : Type 0 where
    pub good : file.failed ≡ false
    pub head : file.pos + ehdr_size ≤ file.size
    pub magic : (header_of file).is_elf ≡ true
    pub small : (header_of file).phoff < 2 ^ 63
    pub table :
        (header_of file).phoff + (header_of file).phentsize * (header_of file).phnum ≤ file.size
    pub int_size : (header_of file).phentsize * (header_of file).phnum < 2 ^ 31
    pub entry_size : (header_of file).phentsize ≡ phdr_size

  load_table :
      (m : Memory) (file : Stream)
      → IsElf file
      → let h = header_of file in
        let size = h.phentsize * h.phnum in
        let file' = record file { pos = h.phoff + size } in
        load ehdr_size ehdr phdr_size phdr m (some file) ≡ (
          load_segments ehdr_size ehdr phdr_size phdr h.phnum 0 (table_of file) file' m
          >>= λ (complete, m'). ok ((if complete then h.entry else minus_einval), m'))
  unfolding load
  load_table m file e =
      let h = header_of file in
      let size = h.phentsize * h.phnum in
      let f1 = record file { pos = file.pos + ehdr_size } in
      let fits : leb (2 ^ 31) size ≡ false = ground (arith, e.int_size) in
      rw
        (
          stream_read_inside file ehdr_size e.good e.head,
          filled-read_bytes ehdr_size file.content file.pos,
          e.magic,
          fits,
          seek-stream_read f1 h.phoff size e.good e.small e.table,
          filled-read_bytes size file.content h.phoff,
        )
        refl

  length-table :
      (file : Stream) → length (table_of file) ≡ (header_of file).phentsize * (header_of file).phnum
  length-table file =
      let h = header_of file in length-read_bytes (h.phentsize * h.phnum) file.content h.phoff

  -- For a file with a header, and with a table of fewer than 2^31 bytes in it whose entries have
  -- their usual size: if
  -- every segment of the table is loadable, the header's entry is returned, and each byte of the
  -- memory is that of the last segment over it, or what it was where there is none.
  pub load_complete :
      (m : Memory) (file : Stream)
      → IsElf file
      → let ps = segments_of file (header_of file).phnum 0 in
        AllLoadable file.size ps
        → (m' : Memory) × (load ehdr_size ehdr phdr_size phdr m (some file)
            ≡ ok ((header_of file).entry, m'))
          × ((x : ℕ) → m' x ≡ image file.content ps x (m x))
  unfolding load_segments
  load_complete m file e all =
      let h = header_of file in
      let f2 = record file { pos = h.phoff + h.phentsize * h.phnum } in
      let (f3, m', loop, stored) =
        load_segments-prefix ehdr_size ehdr phdr_size phdr h.phnum 0 0 (table_of file) f2 m e.good
          (row h.phnum phdr_size h.phnum h.phentsize (length (table_of file)) (omega arith)
            e.entry_size (length-table file))
          all in
      let same : h.phnum + 0 ≡ h.phnum = omega arith in
      let ended =
        ap (λ (c : ℕ). load_segments ehdr_size ehdr phdr_size phdr c 0 (table_of file) f2 m)
          (sym same)
        ∙ loop in
      (m', load_table m file e ∙ rw ended refl, stored)

  -- For a file with a header, and with a table of fewer than 2^31 bytes in it whose entries have
  -- their usual size: if a
  -- segment that is to be loaded has no bytes, or more than it has room for, and those before it
  -- are loadable, the loop ends there. The segments before it are in the memory, and what is
  -- returned, like an entry, is 22 below 2^64.
  pub load_refused :
      (m : Memory) (file : Stream) (k r : ℕ)
      → IsElf file
      → (header_of file).phnum ≡ k + suc r
      → AllLoadable file.size (segments_of file k 0)
      → is_bad (phdr (slice (table_of file) (k * phdr_size) phdr_size)) ≡ true
      → (m' : Memory) × (load ehdr_size ehdr phdr_size phdr m (some file) ≡ ok (minus_einval, m'))
        × ((x : ℕ) → m' x ≡ image file.content (segments_of file k 0) x (m x))
  unfolding load_segments
  load_refused m file k r e count all bad =
      let h = header_of file in
      let f2 = record file { pos = h.phoff + h.phentsize * h.phnum } in
      let (f3, m', loop, stored) =
        load_segments-prefix ehdr_size ehdr phdr_size phdr k (suc r) 0 (table_of file) f2 m e.good
          (row k phdr_size h.phnum h.phentsize (length (table_of file)) (omega (arith, count))
            e.entry_size (length-table file))
          all in
      let first : 0 + k ≡ k = omega arith in
      let inside =
        row_end k phdr_size h.phnum h.phentsize (length (table_of file)) (omega (arith, count))
          e.entry_size (length-table file) in
      let ended =
        ap (λ (c : ℕ). load_segments ehdr_size ehdr phdr_size phdr c 0 (table_of file) f2 m) count
        ∙ loop in
      (m', load_table m file e ∙ rw (ended, first, inside, bad) refl, stored)
