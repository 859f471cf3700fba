-- ===== src/Ram/Map.antt =====
-- vm.h: the slots cover the memory once, and the map that the guest is given lies in them.
use kthxvm.Base.{
  ℕ, ◌+◌, ◌*◌, ◌-◌, ◌≤◌, ◌<◌, ◌^◌, ◌≡◌, refl, Bool, true, false, ◌||◌, ◌&&◌, not, ◌⊎◌, List, [],
  ◌∷◌, ltb, leb, if◌then◌else◌, arith, Option, none, some,
}
use kthxvm.Ram.{
  Region, E820, max_mem_size, gap_start, ebda_start, himem_start, memory_size, create_memory,
  e820_table,
}

-- Where the host keeps the byte that the guest has at `a`, by the first region that has it.
abbrev pub translate : List Region → ℕ → Option ℕ
translate [] a = none
translate (r ∷ rs) a =
    let later = translate rs a in
    if leb r.guest_addr a && ltb a (r.guest_addr + r.size)
    then some (r.host_offset + (a - r.guest_addr))
    else later

abbrev pub total_size : List Region → ℕ
total_size [] = 0
total_size (r ∷ rs) = r.size + total_size rs

abbrev pub usable : List E820 → ℕ → Bool
usable [] a = false
usable (e ∷ es) a = leb e.addr a && ltb a (e.addr + e.size) || usable es a

-- With fewer than 2^63 bytes of memory, the slots have exactly what was asked for. The guest's
-- addresses are the host's, from zero up to the size and past the gap below 4 GB, in which there
-- is no memory.
pub create_memory_lem :
    (mem a : ℕ)
    → mem < 2 ^ 63
    → let gap = leb gap_start a && ltb a max_mem_size in
      (total_size (create_memory mem) ≡ mem)
      × (translate (create_memory mem) a
          ≡ (if ltb a (memory_size mem) && not gap then some a else none))
unfolding create_memory memory_size
create_memory_lem mem a h = ground arith

-- Every byte that the map offers to the guest is in a slot, and none of it lies in the gap or in
-- the area between the extended BIOS data and the first megabyte, if there are a megabyte
-- at least and fewer than 2^63 bytes.
pub e820-create_memory :
    (mem a : ℕ)
    → himem_start ≤ mem
    → mem < 2 ^ 63
    → usable (e820_table (memory_size mem)) a ≡ true
    → (translate (create_memory mem) a ≡ some a)
      × ((a < ebda_start) ⊎ (himem_start ≤ a))
      × ((a < gap_start) ⊎ (max_mem_size ≤ a))
unfolding create_memory memory_size e820_table
e820-create_memory mem a lo hi h = ground arith

pub create_memory-two :
    create_memory (4 * 1024 * 2 ^ 20)
    ≡ record { slot = 0; guest_addr = 0; size = 0xd0000000; host_offset = 0 }
      ∷ record { slot = 1; guest_addr = 0x100000000; size = 0x30000000; host_offset = 0x100000000 }
      ∷ []
unfolding create_memory memory_size
create_memory-two = refl
