-- ===== src/Elf.antt =====
-- src/elf/elf.h: loading the kernel's file into the guest's memory.
-- The layouts of the two headers come from the system: their sizes, and how their members are
-- read from bytes, are parameters. The file is the stream of Blk.File.
pub mod Segments
pub mod Load
mod Tests
use kthxvm.Base.{
  leb, ℕ, zero, suc, ◌+◌, ◌-◌, ◌*◌, ◌^◌, Bool, true, false, not, ◌&&◌, ◌||◌, Option, none, some,
  List, [], ◌∷◌, ◌++◌, length, replicate, slice, ltb, ◌==◌, if◌then◌else◌, Result, ok, err, thrown,
  fault, ◌>>=◌,
}
use kthxvm.Memory.{Memory, write_bytes}
use kthxvm.Blk.File.{Stream, seek, stream_read}

-- The members of `Elf64_Ehdr` and of `Elf64_Phdr` that are used; `is_elf` is the test of the first
-- bytes of `e_ident`, and `is_load` that of `p_type`.
pub record Ehdr : Type 0 where
  pub is_elf : Bool
  pub entry : ℕ
  pub phoff : ℕ
  pub phentsize : ℕ
  pub phnum : ℕ

pub record Phdr : Type 0 where
  pub is_load : Bool
  pub offset : ℕ
  pub paddr : ℕ
  pub filesz : ℕ
  pub memsz : ℕ

-- A new vector of `size` bytes, into which these were read.
abbrev pub filled : ℕ → List ℕ → List ℕ
filled size bytes = bytes ++ replicate (size - length bytes) 0

-- `-EINVAL` in a `__u64`.
abbrev pub minus_einval : ℕ
minus_einval = 2 ^ 64 - 22

-- A segment that the loop refuses.
abbrev pub is_bad : Phdr → Bool
is_bad p = p.is_load && (ltb p.memsz p.filesz || p.filesz == 0)

-- The turn of the loop for one segment that it does not refuse.
abbrev pub load_segment : Stream → Memory → Phdr → Stream × Memory
load_segment f m p =
    let (f', bytes) = stream_read (seek f p.offset) p.filesz in
    if p.is_load then (f', write_bytes m p.paddr bytes) else (f, m)

module _ (ehdr_size : ℕ) (ehdr : List ℕ → Ehdr) (phdr_size : ℕ) (phdr : List ℕ → Phdr) where
  -- The loop, for `n` segments from `i` on: whether it reached its end, and the memory.
  pub load_segments : ℕ → ℕ → List ℕ → Stream → Memory → Result (Bool × Memory)
  load_segments zero i buf f m = ok (true, m)
  load_segments (suc n) i buf f m =
      let p = phdr (slice buf (i * phdr_size) phdr_size) in
      let (f', m') = load_segment f m p in
      let later = load_segments n (i + 1) buf f' m' in
      if ltb (length buf) (i * phdr_size + phdr_size)
      then err fault
      else if is_bad p
      then ok (false, m)
      else later

  -- The size of the table is an `int`. `none` is a file that is not open. The result is what is
  -- returned, and the memory.
  pub load : Memory → Option Stream → Result (ℕ × Memory)
  load m none = err thrown
  load m (some file) =
      let (f1, head) = stream_read file ehdr_size in
      let header = ehdr (filled ehdr_size head) in
      let size = header.phentsize * header.phnum in
      let (f2, table) = stream_read (seek f1 header.phoff) size in
      let rest = load_segments header.phnum 0 (filled size table) f2 m >>= λ (complete, m').
      ok ((if complete then header.entry else minus_einval), m') in
      if header.is_elf then (if leb (2 ^ 31) size then err fault else rest) else err thrown
