-- ===== src/Ram/Assigns.antt =====
-- vm.h: what a sequence of assignments to the members of `struct boot_params` leaves in them.
use kthxvm.Base.{ℕ, zero, suc, drop, ◌+◌, ◌≤◌, ◌^◌, ◌%◌, ◌≡◌, refl, ◌∙◌, List, [], ◌∷◌, ◌++◌, arith}
use kthxvm.Memory.{
  Memory, store, load, Apart, Outside, store-Outside, load-store-Apart, load-store_self,
}
use kthxvm.Ram.Boot.{Assign, assign, zero_page_start}

-- None of the assignments touches the `w` bytes at `p`.
abbrev pub Clear : List Assign → ℕ → ℕ → Type 0
Clear [] p w = Unit {0}
Clear (a ∷ rest) p w = Apart a.place a.width p w × Clear rest p w

-- The last of the assignments to touch the `w` bytes at `p` puts `v` there.
pub data Writes : List Assign → ℕ → ℕ → ℕ → Type 0 where
  here :
      (a : Assign) (rest : List Assign)
      → Clear rest a.place a.width
      → Writes (a ∷ rest) a.place a.width a.value
  later :
      (a : Assign) (rest : List Assign) (p w v : ℕ) → Writes rest p w v → Writes (a ∷ rest) p w v

load-assign-Clear :
    (rest : List Assign) (m : Memory) (p w : ℕ)
    → Clear rest p w
    → load w (assign rest m) (zero_page_start + p) ≡ load w m (zero_page_start + p)
load-assign-Clear [] m p w h = refl
load-assign-Clear (a ∷ rest) m p w (apart, others) =
    load-assign-Clear rest (store a.width m (zero_page_start + a.place) a.value) p w others
    ∙ load-store-Apart a.width w m (zero_page_start + a.place) a.value (zero_page_start + p)
        (omega (arith, apart))

pub load-assign :
    (rest : List Assign) (m : Memory) (p w v : ℕ)
    → Writes rest p w v
    → load w (assign rest m) (zero_page_start + p) ≡ v % 256 ^ w
load-assign _ m _ _ _ (here a rest clear) =
    load-assign-Clear rest (store a.width m (zero_page_start + a.place) a.value) a.place a.width
      clear
    ∙ load-store_self a.width m (zero_page_start + a.place) a.value
load-assign _ m _ _ _ (later a rest p w v h) =
    load-assign rest (store a.width m (zero_page_start + a.place) a.value) p w v h

-- The assignments lie in the first `size` bytes.
abbrev pub Within : List Assign → ℕ → Type 0
Within [] size = Unit {0}
Within (a ∷ rest) size = (a.place + a.width ≤ size) × Within rest size

pub assign-Outside :
    (rest : List Assign) (m : Memory) (size x : ℕ)
    → Within rest size
    → Outside zero_page_start size x
    → assign rest m x ≡ m x
assign-Outside [] m size x h out = refl
assign-Outside (a ∷ rest) m size x (inside, others) out =
    assign-Outside rest (store a.width m (zero_page_start + a.place) a.value) size x others out
    ∙ store-Outside a.width m (zero_page_start + a.place) a.value x (omega arith)

pub skip : (n : ℕ) (all : List Assign) (p w v : ℕ) → Writes (drop n all) p w v → Writes all p w v
skip zero all p w v h = h
skip (suc n) [] p w v h = h
skip (suc n) (a ∷ all) p w v h = later a all p w v (skip n all p w v h)

pub Writes-append :
    (before all : List Assign) (p w v : ℕ) → Writes all p w v → Writes (before ++ all) p w v
Writes-append [] all p w v h = h
Writes-append (a ∷ before) all p w v h =
    later a (before ++ all) p w v (Writes-append before all p w v h)

pub Within-append :
    (before all : List Assign) (size : ℕ)
    → Within before size
    → Within all size
    → Within (before ++ all) size
Within-append [] all size h k = k
Within-append (a ∷ before) all size (inside, others) k =
    (inside, Within-append before all size others k)
