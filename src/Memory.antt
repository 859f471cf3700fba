-- ===== src/Memory.antt =====
-- The guest's memory, which the source reads and writes through pointers cast to structures.
-- A cell is a byte; numbers are little-endian, as on the x86 that the program is for. An address is
-- an offset from `memory_ptr()`. The end of the mapping is not modelled.
use native.Mathlib.Nat.{
  pow-suc, one-le-pow, mul_comm, mod-lt, mod-eq_of_lt, div-add-mod, add-mul-mod_self_left,
}
use kthxvm.Base.{
  ℕ, zero, suc, ◌+◌, ◌-◌, ◌*◌, ◌/◌, ◌%◌, ◌^◌, ◌≤◌, ◌<◌, ◌≡◌, refl, ap, ◌∙◌, ◌⊎◌, inl, ltb, leb,
  ◌&&◌, arith, u8, ◌==◌, if◌then◌else◌, List, [], ◌∷◌, ◌++◌, length, map, ap₂,
}

abbrev pub Memory : Type 0
Memory = ℕ → ℕ

-- The number in the `n` bytes from address `a` on.
unfoldable pub load : ℕ → Memory → ℕ → ℕ
load zero m a = 0
load (suc n) m a = u8 (m a) + 256 * load n m (a + 1)

abbrev pub store_byte : Memory → ℕ → ℕ → Memory
store_byte m a v x = if x == a then u8 v else m x

-- The `n` low bytes of `v`, written from address `a` on.
pub store : ℕ → Memory → ℕ → ℕ → Memory
store zero m a v = m
store (suc n) m a v = store n (store_byte m a v) (a + 1) (v / 256)

-- `memcpy` into the guest.
pub write_bytes : Memory → ℕ → List ℕ → Memory
write_bytes m a [] = m
write_bytes m a (b ∷ bs) = write_bytes (store_byte m a b) (a + 1) bs

-- `memcpy` from the guest.
unfoldable pub read_bytes : Memory → ℕ → ℕ → List ℕ
read_bytes m a zero = []
read_bytes m a (suc n) = u8 (m a) ∷ read_bytes m (a + 1) n

-- `x` is not one of the `n` addresses from `a` on.
abbrev pub Outside : ℕ → ℕ → ℕ → Type 0
Outside a n x = (x < a) ⊎ (a + n ≤ x)

-- Two runs of addresses have none in common.
abbrev pub Apart : ℕ → ℕ → ℕ → ℕ → Type 0
Apart a n b k = (b + k ≤ a) ⊎ (a + n ≤ b)

pub store-Outside : (n : ℕ) (m : Memory) (a v x : ℕ) → Outside a n x → store n m a v x ≡ m x
unfolding store
store-Outside zero m a v x h = refl
store-Outside (suc n) m a v x h =
    store-Outside n (store_byte m a v) (a + 1) (v / 256) x (omega arith) ∙ ground arith

pub load-cong :
    (n : ℕ) (m m' : Memory) (a : ℕ)
    → ((x : ℕ) → a ≤ x → x < a + n → m x ≡ m' x)
    → load n m a ≡ load n m' a
unfolding load
load-cong zero m m' a h = refl
load-cong (suc n) m m' a h = omega (
  arith,
  h a (omega arith) (omega arith),
  load-cong n m m' (a + 1) (λ x p q. h x (omega arith) (omega arith)),
)

-- A read apart from what is written sees the memory before.
pub load-store-Apart :
    (n k : ℕ) (m : Memory) (a v b : ℕ) → Apart a n b k → load k (store n m a v) b ≡ load k m b
load-store-Apart n k m a v b h =
    load-cong k (store n m a v) m b (λ x p q. store-Outside n m a v x (omega arith))

pub load-bound : (n : ℕ) (m : Memory) (a : ℕ) → load n m a < 256 ^ n
unfolding load
load-bound zero m a = omega arith
load-bound (suc n) m a = omega (arith, pow-suc 256 n, load-bound n m (a + 1))

mod_byte : (p v : ℕ) → 0 < p → v % (256 * p) ≡ v / 256 % p * 256 + v % 256
mod_byte p v h =
    let q = v / 256 / p in
    let s = v / 256 % p in
    let small : s * 256 + v % 256 < 256 * p = omega (arith, mod-lt (v / 256) h) in
    let split : v ≡ s * 256 + v % 256 + 256 * p * q = omega (arith, div-add-mod (v / 256) p) in
    ap (λ (t : ℕ). t % (256 * p)) split
    ∙ add-mul-mod_self_left (s * 256 + v % 256) (256 * p) q
    ∙ mod-eq_of_lt small

-- A read of what was written gives it, cut to its width.
pub load-store_self : (n : ℕ) (m : Memory) (a v : ℕ) → load n (store n m a v) a ≡ v % 256 ^ n
unfolding load store
load-store_self zero m a v = omega arith
load-store_self (suc n) m a v =
    let m' = store_byte m a v in
    let first : store n m' (a + 1) (v / 256) a ≡ u8 v =
      store-Outside n m' (a + 1) (v / 256) a (omega arith) ∙ ground arith in
    omega (
      arith,
      first,
      load-store_self n m' (a + 1) (v / 256),
      mod_byte (256 ^ n) v (omega (arith, one-le-pow n 256)),
      ap (λ (t : ℕ). v % t) (pow-suc 256 n ∙ mul_comm (256 ^ n) 256),
    )

pub write_bytes-Outside :
    (bs : List ℕ) (m : Memory) (a x : ℕ) → Outside a (length bs) x → write_bytes m a bs x ≡ m x
unfolding write_bytes
write_bytes-Outside [] m a x h = refl
write_bytes-Outside (b ∷ bs) m a x h =
    write_bytes-Outside bs (store_byte m a b) (a + 1) x (omega arith) ∙ ground arith

pub length-read_bytes : (n : ℕ) (m : Memory) (a : ℕ) → length (read_bytes m a n) ≡ n
unfolding read_bytes
length-read_bytes zero m a = refl
length-read_bytes (suc n) m a = ap suc (length-read_bytes n m (a + 1))

-- What was written is read back, byte by byte.
pub read_bytes-write_bytes :
    (bs : List ℕ) (m : Memory) (a : ℕ) → read_bytes (write_bytes m a bs) a (length bs) ≡ map u8 bs
unfolding read_bytes write_bytes
read_bytes-write_bytes [] m a = refl
read_bytes-write_bytes (b ∷ bs) m a =
    let m' = store_byte m a b in
    let first : write_bytes m' (a + 1) bs a ≡ u8 b =
      write_bytes-Outside bs m' (a + 1) a (inl (omega arith)) ∙ ground arith in
    ap₂ ◌∷◌ (ap u8 first ∙ omega arith) (read_bytes-write_bytes bs m' (a + 1))

pub write_bytes-nil : (m : Memory) (a : ℕ) → write_bytes m a [] ≡ m
unfolding write_bytes
write_bytes-nil m a = refl

-- Two stores in a row are one.
pub write_bytes-append :
    (bs cs : List ℕ) (m : Memory) (a : ℕ)
    → write_bytes (write_bytes m a bs) (a + length bs) cs ≡ write_bytes m a (bs ++ cs)
unfolding write_bytes
write_bytes-append [] cs m a = ap (λ (p : ℕ). write_bytes m p cs) (omega arith)
write_bytes-append (b ∷ bs) cs m a =
    let further : a + suc (length bs) ≡ a + 1 + length bs = omega arith in
    ap (λ (p : ℕ). write_bytes (write_bytes (store_byte m a b) (a + 1) bs) p cs) further
    ∙ write_bytes-append bs cs (store_byte m a b) (a + 1)

pub read_bytes-cong :
    (n : ℕ) (m m' : Memory) (a : ℕ)
    → ((x : ℕ) → a ≤ x → x < a + n → m x ≡ m' x)
    → read_bytes m a n ≡ read_bytes m' a n
unfolding read_bytes
read_bytes-cong zero m m' a h = refl
read_bytes-cong (suc n) m m' a h =
    ap₂ ◌∷◌ (ap u8 (h a (omega arith) (omega arith)))
      (read_bytes-cong n m m' (a + 1) (λ x p q. h x (omega arith) (omega arith)))

-- A run of bytes and the run after it are one run.
pub read_bytes-join :
    (m : Memory) (a n k : ℕ) → read_bytes m a n ++ read_bytes m (a + n) k ≡ read_bytes m a (n + k)
unfolding read_bytes
read_bytes-join m a zero k =
    let here : a + 0 ≡ a = omega arith in
    let none_first : 0 + k ≡ k = omega arith in rw (here, none_first) refl
read_bytes-join m a (suc n) k =
    let next : a + suc n ≡ a + 1 + n = omega arith in
    let longer : suc n + k ≡ suc (n + k) = omega arith in
    rw (next, longer) (ap (◌∷◌ (u8 (m a))) (read_bytes-join m (a + 1) n k))

pub read_bytes-zero : (m : Memory) (a : ℕ) → read_bytes m a 0 ≡ []
unfolding read_bytes
read_bytes-zero m a = refl

-- A run of bytes copied to another address.
pub write_bytes-read_bytes :
    (m c : Memory) (a o n x : ℕ)
    → write_bytes m a (read_bytes c o n) x
      ≡ (if leb a x && ltb x (a + n) then u8 (c (o + (x - a))) else m x)
unfolding write_bytes read_bytes
write_bytes-read_bytes m c a o zero x = ground arith
write_bytes-read_bytes m c a o (suc n) x =
    let later = write_bytes-read_bytes (store_byte m a (u8 (c o))) c (a + 1) (o + 1) n x in
    let here : x ≡ a → c (o + (x - a)) ≡ c o = λ e. ap c (omega (arith, e)) in
    let above : a < x → c (o + 1 + (x - (a + 1))) ≡ c (o + (x - a)) =
      λ l. ap c (omega (arith, l)) in
    later ∙ ground (arith, here, above)
