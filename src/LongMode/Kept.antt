-- ===== src/LongMode/Kept.antt =====
-- regs.h: what becomes of the page tables when other parts of the memory are written, and what
-- the setup leaves of the memory.
use kthxvm.Base.{ℕ, zero, suc, ◌+◌, ◌*◌, ◌^◌, ◌≤◌, ◌<◌, ◌≡◌, refl, ◌∙◌, inr, some, arith}
use kthxvm.Memory.{Memory, store, store-Outside, load-cong}
use kthxvm.LongMode.{
  Sregs, pml4_start, pdpte_start, pde_start, pde_entry, fill_pde, tables, setup_long_mode,
}
use kthxvm.LongMode.Paging.{walk, Mapped, walk-Mapped, setup-Mapped, descriptor_tables-Outside}

Mapped-cong :
    (m m' : Memory) → ((x : ℕ) → 0x9000 ≤ x → x < 0xc000 → m' x ≡ m x) → Mapped m → Mapped m'
Mapped-cong m m' same p = record {
  root = load-cong 8 m' m pml4_start (λ x h k. same x (omega arith) (omega arith)) ∙ p.root;
  directory =
      load-cong 8 m' m pdpte_start (λ x h k. same x (omega arith) (omega arith)) ∙ p.directory;
  pages = λ j h.
      load-cong 8 m' m (pde_start + 8 * j) (λ x a b. same x (omega arith) (omega arith))
      ∙ p.pages j h;
}

-- Any later memory with the same bytes in the three tables is mapped like this one.
pub walk-kept :
    (m m' : Memory) (s : Sregs) (v : ℕ)
    → ((x : ℕ) → 0x9000 ≤ x → x < 0xc000 → m' x ≡ (setup_long_mode m s).0 x)
    → v < 2 ^ 30
    → walk m' (setup_long_mode m s).1.cr3 v ≡ some v
unfolding setup_long_mode
walk-kept m m' s v same h =
    walk-Mapped m' v (Mapped-cong (setup_long_mode m s).0 m' same (setup-Mapped m s)) h

fill_pde-above : (n i : ℕ) (m : Memory) (x : ℕ) → i + n ≤ 512 → 0xc000 ≤ x → fill_pde n i m x ≡ m x
unfolding fill_pde
fill_pde-above zero i m x h k = refl
fill_pde-above (suc n) i m x h k =
    fill_pde-above n (i + 1) (store 8 m (pde_start + 8 * i) (pde_entry i)) x (omega arith) k
    ∙ store-Outside 8 m (pde_start + 8 * i) (pde_entry i) x (inr (omega arith))

pub setup_long_mode-above :
    (m : Memory) (s : Sregs) (x : ℕ) → 0xc000 ≤ x → (setup_long_mode m s).0 x ≡ m x
unfolding setup_long_mode tables
setup_long_mode-above m s x h =
    let m1 = store 8 m pml4_start (pdpte_start + 3) in
    let m2 = store 8 m1 pdpte_start (pde_start + 3) in
    descriptor_tables-Outside (tables m) x (inr (omega arith)) (inr (omega arith))
    ∙ fill_pde-above 512 0 m2 x (omega arith) h
    ∙ store-Outside 8 m1 pdpte_start (pde_start + 3) x (inr (omega arith))
    ∙ store-Outside 8 m pml4_start (pdpte_start + 3) x (inr (omega arith))
