-- ===== src/Elf/Tests.antt =====
-- elf.h on a format with headers of five bytes, and a file with two segments.
use kthxvm.Base.{ℕ, ◌≡◌, refl, false, some, List, [], ◌∷◌, get_or, ◌==◌, ok, arith}
use kthxvm.Memory.{Memory, read_bytes}
use kthxvm.Blk.File.{Stream}
use kthxvm.Elf.{Ehdr, Phdr, load, minus_einval}
use kthxvm.Elf.Segments.{image}
use kthxvm.Elf.Load.{IsElf, segments_of, load_complete, load_refused}

abbrev ehdr : List ℕ → Ehdr
ehdr bs = record {
  is_elf = get_or bs 0 0 == 127;
  entry = get_or bs 1 0;
  phoff = get_or bs 2 0;
  phentsize = get_or bs 3 0;
  phnum = get_or bs 4 0;
}

abbrev phdr : List ℕ → Phdr
phdr bs = record {
  is_load = get_or bs 0 0 == 1;
  offset = get_or bs 1 0;
  paddr = get_or bs 2 0;
  filesz = get_or bs 3 0;
  memsz = get_or bs 4 0;
}

-- Two segments, of two bytes at 100 and of `n` bytes at 200.
abbrev file : ℕ → Stream
file n = record {
  content = λ a.
      get_or (127 ∷ 100 ∷ 5 ∷ 5 ∷ 2 ∷ 1 ∷ 15 ∷ 100 ∷ 2 ∷ 2 ∷ 1 ∷ 17 ∷ 200 ∷ n ∷ 3 ∷ 7 ∷ 8 ∷ 9 ∷ [])
        a 0;
  size = 18;
  pos = 0;
  failed = false;
}

abbrev zeros : Memory
zeros = λ a. 0

file-IsElf : (n : ℕ) → IsElf 5 ehdr 5 phdr (file n)
unfolding read_bytes
file-IsElf n = record {
  good = refl;
  head = omega arith;
  magic = refl;
  small = omega arith;
  table = omega arith;
  int_size = omega arith;
  entry_size = refl;
}

load_complete_example :
    (m' : Memory) × (load 5 ehdr 5 phdr zeros (some (file 1)) ≡ ok (100, m'))
    × ((x : ℕ) → m' x ≡ image (file 1).content (segments_of 5 ehdr 5 phdr (file 1) 2 0) x (zeros x))
unfolding read_bytes
load_complete_example = load_complete 5 ehdr 5 phdr zeros (file 1) (file-IsElf 1) (
  λ h. (omega arith, omega arith, omega arith, omega arith),
  (λ h. (omega arith, omega arith, omega arith, omega arith), tt),
)

load_refused_example :
    (m' : Memory) × (load 5 ehdr 5 phdr zeros (some (file 4)) ≡ ok (minus_einval, m'))
    × ((x : ℕ) → m' x ≡ image (file 4).content (segments_of 5 ehdr 5 phdr (file 4) 1 0) x (zeros x))
unfolding read_bytes
load_refused_example =
    load_refused 5 ehdr 5 phdr zeros (file 4) 1 0 (file-IsElf 4) refl
      ((λ h. (omega arith, omega arith, omega arith, omega arith)), tt) refl
