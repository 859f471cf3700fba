-- ===== src/Mmio/Bus.antt =====
-- mmio.h: the class `mmio`, which finds the device of an address; io_device.h.
-- A device's calls of `set_level` go to the line whose number it
-- has.
use kthxvm.Base.{
  ℕ, zero, suc, ◌+◌, ◌-◌, ◌≤◌, ◌<◌, ◌^◌, ◌⊎◌, arith, ◌≢◌, ok_of_bind, ok_injective, ap, ◌≡◌, refl,
  sym, ◌∙◌, Effect, List, [], ◌∷◌, ◌++◌, Bool, true, false, ◌&&◌, some, get_elem?, set, u64, sub64,
  ltb, leb, if◌then◌else◌, Result, ok, err, ◌>>=◌,
}
use mathlib.Core.Option.{some-injective}
use kthxvm.Memory.{Memory}
use kthxvm.Interrupt.{level}
use kthxvm.Interrupt.Lines.{Lines, line, deliver_to, deliver_to-others}
use kthxvm.Mmio.{Register, Backend, Device, read, write}

-- `addr` and `width` of an `io_device`.
pub record Range : Type 0 where
  pub addr : ℕ
  pub width : ℕ

unfoldable pub in_range : Range → ℕ → Bool
in_range r port = leb r.addr port && ltb port (u64 (r.addr + r.width))

unfoldable pub offset : Range → ℕ → ℕ
offset r port = sub64 port r.addr

pub record Slot (B : Type 0) : Type 0 where
  pub range : Range
  pub device : Device B
  pub irq : ℕ

-- `add_device`; `irq` is the number of a registered line.
abbrev pub add_device : {B : Type 0} → List (Slot B) → ℕ → ℕ → ℕ → Device B → List (Slot B)
add_device slots addr width irq device =
    slots
    ++ (record { range = record { addr = addr; width = width }; device = device; irq = irq } ∷ [])

bind_ok {ℓ κ μ} :
    {A : Type ℓ} {B : Type κ} {C : Type μ} (r : Result A) (f : A → B) (g : B → C)
    → (r >>= (λ a. ok (f a)) >>= λ b. ok (g b)) ≡ (r >>= λ a. ok (g (f a)))
bind_ok (ok a) f g = refl
bind_ok (err e) f g = refl

bind_two {ℓ κ μ ν} :
    {A : Type ℓ} {B : Type κ} {C : Type μ} {D : Type ν} (r : Result A) (f : A → Result B)
    (g : A → B → C) (h : C → D)
    → (r >>= (λ a. f a >>= λ b. ok (g a b)) >>= λ c. ok (h c))
      ≡ (r >>= λ a. f a >>= λ b. ok (h (g a b)))
bind_two (ok a) f g h = bind_ok (f a) (g a) h
bind_two (err e) f g h = refl

get_elem?-set_other {ℓ} :
    {A : Type ℓ} (xs : List A) (n k : ℕ) (x : A) → n ≢ k → get_elem? (set xs n x) k ≡ get_elem? xs k
get_elem?-set_other [] n k x h = refl
get_elem?-set_other (y ∷ ys) zero zero x h = absurd (h refl)
get_elem?-set_other (y ∷ ys) zero (suc k) x h = refl
get_elem?-set_other (y ∷ ys) (suc n) zero x h = refl
get_elem?-set_other (y ∷ ys) (suc n) (suc k) x h = get_elem?-set_other ys n k x (λ e. h (ap suc e))

module _ {B : Type 0} (ops : Backend B) (decode : ℕ → Register) (version_1 : ℕ)
    (writable : ℕ → Bool) where
  pub bus_read : Lines → List (Slot B) → ℕ → ℕ → Result (List ℕ)
  bus_read lines [] addr size = ok []
  bus_read lines (s ∷ ss) addr size =
      let here = line lines s.irq >>= λ irq.
      read ops decode version_1 s.device (level irq) (offset s.range addr) size in
      let later = bus_read lines ss addr size in if in_range s.range addr then here else later

  -- The write of one device, with its calls of `set_level`.
  pub slot_write : Lines → Slot B → List ℕ → ℕ → ℕ → Result (Lines × Slot B)
  slot_write lines s bytes addr size = do
    (d, es) ← write ops decode version_1 s.device bytes (offset s.range addr) size
    lines' ← deliver_to writable lines s.irq es
    ok (lines', record s { device = d })

  pub bus_write : Lines → List (Slot B) → List ℕ → ℕ → ℕ → Result (Lines × List (Slot B))
  bus_write lines [] bytes addr size = ok (lines, [])
  bus_write lines (s ∷ ss) bytes addr size =
      let here = slot_write lines s bytes addr size >>= λ (l, s'). ok (l, s' ∷ ss) in
      let later = bus_write lines ss bytes addr size >>= λ (l, ss'). ok (l, s ∷ ss') in
      if in_range s.range addr then here else later

  unfoldable pub bus_update :
      Lines → List (Slot B) → Memory → Result (Lines × List (Slot B) × Memory)
  bus_update lines [] m = ok (lines, [], m)
  bus_update lines (s ∷ ss) m = do
    u ← ops.update s.device.queue_index s.device.queues s.device.backend m
    lines' ← deliver_to writable lines s.irq u.effects
    (l, ss', m') ← bus_update lines' ss u.memory
    ok (
      l,
      record s { device = record (s.device) { queues = u.queues; backend = u.backend } } ∷ ss',
      m',
    )

  -- None of the first `i` devices has the address in its range.
  abbrev pub Before : List (Slot B) → ℕ → ℕ → Type 0
  Before ss zero addr = Unit
  Before [] (suc i) addr = Unit
  Before (s ∷ ss) (suc i) addr =
      ((addr < s.range.addr) ⊎ (s.range.addr + s.range.width ≤ addr)) × Before ss i addr

  -- What a read and a write of that device give, with the offset written out; a write that
  -- succeeds changes no other slot and no other line.
  pub record IsRouted (lines : Lines) (ss : List (Slot B)) (i : ℕ) (s : Slot B) (bytes : List ℕ)
      (addr size : ℕ) : Type 0 where
    pub reads : bus_read lines ss addr size ≡ (
        line lines s.irq >>= λ irq.
        read ops decode version_1 s.device (level irq) (addr - s.range.addr) size)
    pub writes : bus_write lines ss bytes addr size ≡ (
        write ops decode version_1 s.device bytes (addr - s.range.addr) size >>= λ (d, es).
        deliver_to writable lines s.irq es >>= λ lines'.
        ok (lines', set ss i (record s { device = d })))
    pub others :
        (lines' : Lines) (ss' : List (Slot B))
        → bus_write lines ss bytes addr size ≡ ok (lines', ss')
        → ((k : ℕ) → s.irq ≢ k → line lines' k ≡ line lines k)
          × ((j : ℕ) → i ≢ j → get_elem? ss' j ≡ get_elem? ss j)

  outside :
      (r : Range) (addr : ℕ) → (addr < r.addr) ⊎ (r.addr + r.width ≤ addr) → in_range r addr ≡ false
  unfolding in_range
  outside r addr h = ground arith

  -- The path to the device, with the code's own parts.
  reached :
      (lines : Lines) (ss : List (Slot B)) (i : ℕ) (s : Slot B) (bytes : List ℕ) (addr size : ℕ)
      → get_elem? ss i ≡ some s
      → in_range s.range addr ≡ true
      → Before ss i addr
      → (bus_read lines ss addr size ≡ (
          line lines s.irq >>= λ irq.
          read ops decode version_1 s.device (level irq) (offset s.range addr) size))
        × (bus_write lines ss bytes addr size
            ≡ (slot_write lines s bytes addr size >>= λ (l, s'). ok (l, set ss i s')))
  unfolding bus_read bus_write
  reached lines [] i s bytes addr size e hit b = cc
  reached lines (t ∷ ss) zero s bytes addr size e hit b =
      let same : s ≡ t = sym (some-injective t s e) in
      let hit' : in_range t.range addr ≡ true = rw (← same) hit in rw (hit', same) (refl, refl)
  reached lines (t ∷ ss) (suc i) s bytes addr size e hit (miss, b) =
      let ih = reached lines ss i s bytes addr size e hit b in
      rw (outside t.range addr miss) (
        ih.0,
        rw ih.1 (
            bind_ok (slot_write lines s bytes addr size)
              (λ (x : Lines × Slot B). (x.0, set ss i x.1))
              (λ (y : Lines × List (Slot B)). (y.0, t ∷ y.1))),
      )

  -- An access in the range of a device, which ends below 2^64, and in the range of none before it,
  -- reaches that device at the distance from the start of its range: a read gives what it reads,
  -- with the state of its interrupt line, and a write stores the device and makes its calls on its
  -- line, changes no other slot and no other line, and fails if one of the two fails.
  pub bus_routes :
      (lines : Lines) (ss : List (Slot B)) (i : ℕ) (s : Slot B) (bytes : List ℕ) (addr size : ℕ)
      → get_elem? ss i ≡ some s
      → s.range.addr ≤ addr
      → addr < s.range.addr + s.range.width
      → s.range.addr + s.range.width < 2 ^ 64
      → Before ss i addr
      → IsRouted lines ss i s bytes addr size
  unfolding slot_write offset in_range
  bus_routes lines ss i s bytes addr size e low high fits b =
      let hit : in_range s.range addr ≡ true = ground arith in
      let at : sub64 addr s.range.addr ≡ addr - s.range.addr = omega arith in
      let (rd, wr) = reached lines ss i s bytes addr size e hit b in
      let whole =
        wr
        ∙ bind_two (write ops decode version_1 s.device bytes (offset s.range addr) size)
            (λ (x : Device B × List Effect). deliver_to writable lines s.irq x.1)
            (λ (x : Device B × List Effect) (l : Lines). (l, record s { device = x.0 }))
            (λ (y : Lines × Slot B). (y.0, set ss i y.1)) in
      record {
        reads = rd ∙ rw at refl;
        writes = whole ∙ rw at refl;
        others = λ lines' ss' h.
            let ((d, es), stored, rest) =
              ok_of_bind (write ops decode version_1 s.device bytes (offset s.range addr) size) _
                (sym whole ∙ h) in
            let (l, made, done) = ok_of_bind (deliver_to writable lines s.irq es) _ rest in
            let now = ok_injective done in
            let all : l ≡ lines' = ap (λ (y : Lines × List (Slot B)). y.0) now in
            let cells : set ss i (record s { device = d }) ≡ ss' =
              ap (λ (y : Lines × List (Slot B)). y.1) now in
            (
              λ k ne. rw (← all) (deliver_to-others writable lines l s.irq k es made ne),
              λ j ne. rw (← cells) (get_elem?-set_other ss i j (record s { device = d }) ne),
            );
      }
