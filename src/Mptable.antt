-- ===== src/Mptable.antt =====
-- src/kvm/mptable.h, the table of processors and interrupts of a multiprocessor machine, with the
-- structures of include/mpspec_def.h and the addresses of include/apic.h and apicdef.h.
-- A structure is the list of its bytes; the buffer is filled with zeros before it is used.
pub mod Checksum
pub mod Entries
pub mod Place
mod Tests
use kthxvm.Base.{
  ℕ, zero, suc, ◌+◌, ◌-◌, ◌*◌, ◌/◌, ◌%◌, ◌^◌, List, [], ◌∷◌, ◌++◌, length, take, replicate,
  word_bytes, u8, u16, u32, bit_or, bit_and, ltb, ◌==◌, if◌then◌else◌,
}
use kthxvm.Memory.{Memory, write_bytes}

abbrev pub mptable_start : ℕ
mptable_start = 0x9fc00

abbrev pub apic_addr : ℕ → ℕ
apic_addr apic = 0xfee00000 + apic * 0x00400000

abbrev pub ioapic_addr : ℕ → ℕ
ioapic_addr ioapic = 0xfec00000 + ioapic * 0x00100000

abbrev pub kvm_apic_version : ℕ
kvm_apic_version = 0x14

pub gen_cpu_flag : ℕ → ℕ → ℕ
gen_cpu_flag cpu ncpu = bit_or (if ltb cpu ncpu then 1 else 0) (if cpu == 0 then 2 else 0)

-- The sum of the bytes, at 32 bits.
pub sum : List ℕ → ℕ
sum [] = 0
sum (b ∷ bs) = u32 (u8 b + sum bs)

pub mpf_checksum : List ℕ → ℕ
mpf_checksum bytes = bit_and (sum bytes) 0xff

-- `-x`, stored in a byte.
abbrev pub negated : ℕ → ℕ
negated x = u8 (2 ^ 32 - u32 x)

-- `struct mpc_table`: the signature "PCMP", the manufacturer "KVMCPU00" and the product "0.1" with
-- nine blanks.
pub mpc_table : ℕ → ℕ → ℕ → List ℕ
mpc_table size checksum oemcount =
    80 ∷ 67 ∷ 77 ∷ 80 ∷ word_bytes 2 size
    ++ 4
      ∷ checksum
      ∷ 75
      ∷ 86
      ∷ 77
      ∷ 67
      ∷ 80
      ∷ 85
      ∷ 48
      ∷ 48
      ∷ 48
      ∷ 46
      ∷ 49
      ∷ 32
      ∷ 32
      ∷ 32
      ∷ 32
      ∷ 32
      ∷ 32
      ∷ 32
      ∷ 32
      ∷ 32
      ∷ word_bytes 4 0
    ++ word_bytes 2 0
    ++ word_bytes 2 oemcount
    ++ word_bytes 4 (apic_addr 0)
    ++ word_bytes 4 0

-- `struct mpc_cpu` of processor `i`.
pub mpc_cpu : ℕ → ℕ → List ℕ
mpc_cpu i ncpus =
    0 ∷ u8 i ∷ kvm_apic_version ∷ u8 (gen_cpu_flag i ncpus) ∷ word_bytes 4 0x600
    ++ word_bytes 4 0x201
    ++ word_bytes 8 0

-- `n` rounds of the loop over the processors, from `i` on.
pub mpc_cpus : ℕ → ℕ → ℕ → List ℕ
mpc_cpus zero i ncpus = []
mpc_cpus (suc n) i ncpus = mpc_cpu i ncpus ++ mpc_cpus n (i + 1) ncpus

-- `struct mpc_bus`, of the type "PCI".
pub mpc_bus : List ℕ
mpc_bus = 1 ∷ 0 ∷ 80 ∷ 67 ∷ 73 ∷ 32 ∷ 32 ∷ 32 ∷ []

pub mpc_ioapic : ℕ → List ℕ
mpc_ioapic ncpus = 2 ∷ u8 (u32 (ncpus + 1)) ∷ kvm_apic_version ∷ 0x01 ∷ word_bytes 4 (ioapic_addr 0)

-- `struct mpc_intsrc` with the type of a local interrupt: LINT0 is a vectored interrupt, since the
-- second store to `irqtype` replaces the first, and LINT1 is not maskable.
pub mpc_intsrc : ℕ → ℕ → List ℕ
mpc_intsrc irqtype dstirq = 4 ∷ irqtype ∷ word_bytes 2 0 ++ 0 ∷ 0 ∷ 0 ∷ dstirq ∷ []

-- All that follows the table.
pub entries : ℕ → List ℕ
entries ncpus =
    mpc_cpus ncpus 0 ncpus ++ (mpc_bus ++ (mpc_ioapic ncpus ++ (mpc_intsrc 0 0 ++ mpc_intsrc 1 1)))

-- `struct mpf_intel`: the signature "_MP_".
pub mpf_intel : ℕ → List ℕ
mpf_intel checksum =
    95 ∷ 77 ∷ 80 ∷ 95 ∷ word_bytes 4 mptable_start ++ 1 ∷ 4 ∷ checksum ∷ 0 ∷ 0 ∷ 0 ∷ 0 ∷ 0 ∷ []

-- The table with its entries. The checksum is that of the table with a zero in its place, over the
-- length that the table has.
pub config_table : ℕ → List ℕ
config_table ncpus =
    let size = u16 (44 + length (entries ncpus)) in
    let nentries = u32 (ncpus + 4) in
    let unsigned = mpc_table size 0 nentries ++ entries ncpus in
    mpc_table size (negated (mpf_checksum (take size unsigned))) nentries ++ entries ncpus

-- The gap up to the next multiple of 16, and the pointer to the table.
abbrev pub align16 : ℕ → ℕ
align16 n = (n + 15) / 16 * 16

pub pointer : List ℕ
pointer = mpf_intel (negated (mpf_checksum (mpf_intel 0)))

pub mptable_bytes : ℕ → List ℕ
mptable_bytes ncpus =
    let table = config_table ncpus in
    table ++ replicate (align16 (length table) - length table) 0 ++ pointer

pub setup_mptable : Memory → ℕ → Memory
setup_mptable m ncpus = write_bytes m mptable_start (mptable_bytes ncpus)
