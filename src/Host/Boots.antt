-- ===== src/Host/Boots.antt =====
-- main.cpp, vmm.h and elf.h together: the program loads a kernel and starts it.
use kthxvm.Base.{ℕ, ◌^◌, ◌-◌, ◌≤◌, ◌<◌, ◌≡◌, ◌∙◌, List, [], ◌++◌, length, Option, some, ok}
use kthxvm.Memory.{Memory}
use kthxvm.Blk.File.{Stream}
use kthxvm.Elf.{Ehdr, Phdr, load}
use kthxvm.Elf.Segments.{image, AllLoadable}
use kthxvm.Elf.Load.{IsElf, segments_of, header_of, load_complete}
use kthxvm.Ram.Boot.{Layout}
use kthxvm.Ram.Fields.{IsOrdered}
use kthxvm.Host.{Call, Calls}
use kthxvm.Host.Follows.{Bad}
use kthxvm.Host.Start.{Kernel, main}
use kthxvm.Host.Order.{construction_calls, start_calls}
use kthxvm.Host.Answered.{main-answered}
use kthxvm.Host.Guest.{IsBootable, boot_memory-IsBootable}

-- On a system that never gives an answer on which the program gives up, with an ELF file as for
-- `load` of which every segment is loadable, with a layout in the order of the boot protocol, a
-- type RAM below 2^32 and a command line that fits below the table of processors: `main` returns,
-- after exactly the calls of the list in their order, with the entry of the file in the registers
-- of processor 0. The memory it leaves maps each of the first 2^30 addresses to itself; the guest
-- finds in it the boot parameters, the command line, the memory map and the pointer to the table
-- of processors; and from one megabyte on each byte is that of the last segment over it, or what
-- it was.
pub main-boots :
    (answers : Calls → Call → Option ℕ) (version : ℕ)
    (good : (before : Calls) (c : Call) → ¬ Bad answers version before c) (k : Kernel) (l : Layout)
    (cmdline : List ℕ) (ehdr_size : ℕ) (ehdr : List ℕ → Ehdr) (phdr_size : ℕ) (phdr : List ℕ → Phdr)
    (m : Memory) (file : Stream)
    → IsOrdered l
    → l.e820_ram < 2 ^ 32
    → length cmdline ≤ 0x9fc00 - 0x20000
    → IsElf ehdr_size ehdr phdr_size phdr file
    → let h = header_of ehdr_size ehdr phdr_size phdr file in
      let ps = segments_of ehdr_size ehdr phdr_size phdr file h.phnum 0 in
      AllLoadable file.size ps
      → (m' b : Memory) × (main answers version k l cmdline
            (load ehdr_size ehdr phdr_size phdr m (some file))
            []
          ≡ (ok b, construction_calls ++ start_calls k h.entry m'))
        × IsBootable k l cmdline m' b
        × ((x : ℕ) → 0x100000 ≤ x → b x ≡ image file.content ps x (m x))
main-boots answers version good k l cmdline es ehdr ps phdr m file o ram fits e all =
    let (m', loaded, stored) = load_complete es ehdr ps phdr m file e all in
    let booted = boot_memory-IsBootable k l cmdline m' o ram fits in
    (
      m',
      _,
      main-answered answers version good k l cmdline _ _ m' loaded,
      booted,
      λ x h. booted.image x h ∙ stored x,
    )
