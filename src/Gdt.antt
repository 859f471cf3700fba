-- ===== src/Gdt.antt =====
-- src/kvm/gdt.h, the segment descriptors.
pub mod Roundtrip
mod Tests
use kthxvm.Base.{
  ℕ, ◌*◌, List, [], ◌∷◌, bit_and, bit_or, u8, u16, u32, u64, ◌==◌, if◌then◌else◌, ◌<<<◌, ◌>>>◌,
}

pub entry : ℕ → ℕ → ℕ → ℕ
entry flags base limit =
    bit_or
      (bit_or
        (bit_or
          (bit_or (u64 (bit_and base 0xff000000 <<< 32)) (u64 (bit_and flags 0x0000f0ff <<< 40)))
          (u64 (bit_and limit 0x000f0000 <<< 32)))
        (u64 (bit_and base 0x00ffffff <<< 16)))
      (bit_and limit 0x0000ffff)

pub get_base : ℕ → ℕ
get_base entry =
    bit_or
      (bit_or (bit_and entry 0xff00000000000000 >>> 32) (bit_and entry 0x000000ff00000000 >>> 16))
      (bit_and entry 0x00000000ffff0000 >>> 16)

pub get_limit : ℕ → ℕ
get_limit entry =
    u32 (bit_or (bit_and entry 0x000f000000000000 >>> 32) (bit_and entry 0x000000000000ffff))

pub get_g : ℕ → ℕ
get_g entry = u8 (bit_and entry 0x0080000000000000 >>> 55)

pub get_db : ℕ → ℕ
get_db entry = u8 (bit_and entry 0x0040000000000000 >>> 54)

pub get_l : ℕ → ℕ
get_l entry = u8 (bit_and entry 0x0020000000000000 >>> 53)

pub get_avl : ℕ → ℕ
get_avl entry = u8 (bit_and entry 0x0010000000000000 >>> 52)

pub get_p : ℕ → ℕ
get_p entry = u8 (bit_and entry 0x0000800000000000 >>> 47)

pub get_dpl : ℕ → ℕ
get_dpl entry = u8 (bit_and entry 0x0000600000000000 >>> 45)

pub get_s : ℕ → ℕ
get_s entry = u8 (bit_and entry 0x0000100000000000 >>> 44)

pub get_type : ℕ → ℕ
get_type entry = u8 (bit_and entry 0x00000f0000000000 >>> 40)

-- `struct kvm_segment`
pub record Segment : Type 0 where
  pub base : ℕ
  pub limit : ℕ
  pub selector : ℕ
  pub type : ℕ
  pub present : ℕ
  pub dpl : ℕ
  pub db : ℕ
  pub s : ℕ
  pub l : ℕ
  pub g : ℕ
  pub avl : ℕ
  pub unusable : ℕ

pub segment : ℕ → ℕ → Segment
unfolding get_base get_limit get_type get_p get_dpl get_db get_s get_l get_g get_avl
segment index entry = record {
  base = get_base entry;
  limit = get_limit entry;
  selector = u16 (index * 8);
  type = get_type entry;
  present = get_p entry;
  dpl = get_dpl entry;
  db = get_db entry;
  s = get_s entry;
  l = get_l entry;
  g = get_g entry;
  avl = get_avl entry;
  unusable = if get_p entry == 0 then 1 else 0;
}

unfoldable pub table : List ℕ
unfolding entry
table = entry 0 0 0 ∷ entry 0xa09b 0 0xfffff ∷ entry 0xc093 0 0xfffff ∷ entry 0x808b 0 0xfffff ∷ []
