-- ===== src/Host/Follows.antt =====
-- Programs that make a given list of calls, as far as the system lets them.
use kthxvm.Base.{
  ℕ, ◌≡◌, ◌≢◌, refl, sym, ap, ◌∙◌, [], ◌∷◌, ◌++◌, Option, none, some, Result, ok, err, thrown,
  length, ◌≤◌, subst, arith, inl, inr, Option-cases,
}
use mathlib.Core.List.{append_assoc, append-nil}
use kthxvm.Host.{
  Call, Calls, Host, ◌>>=◌, pure, lift, continue, ask, checked, ignored, api_version,
  vcpu_mmap_size, madvise_memory, eventfd, open_tun,
}

-- What the program does with the result of a call.
pub data Look : Type 0 where
  not_at_all for_failure for_version for_size : Look

abbrev pub look : Call → Look
look madvise_memory = not_at_all
look (eventfd line) = not_at_all
look open_tun = not_at_all
look api_version = for_version
look vcpu_mmap_size = for_size
look c = for_failure

module _ (answers : Calls → Call → Option ℕ) (version : ℕ) where
  -- An answer on which the program gives up.
  pub data Bad : Calls → Call → Type 0 where
    refused :
        (before : Calls) (c : Call) → look c ≢ not_at_all → answers before c ≡ none → Bad before c
    other_version :
        (before : Calls) (v : ℕ)
        → answers before api_version ≡ some v
        → v ≢ version
        → Bad before api_version
    no_size : (before : Calls) → answers before vcpu_mmap_size ≡ some 0 → Bad before vcpu_mmap_size

  -- None of these calls, made one after the other after the calls `made`, gets such an answer.
  abbrev pub Accepted : Calls → Calls → Type 0
  Accepted made [] = Unit {0}
  Accepted made (c ∷ cs) = (¬ Bad made c) × Accepted (made ++ (c ∷ [])) cs

  -- One of the calls `first`, which were made after the calls `made`, got such an answer: it is the
  -- last of them, or the last but one.
  pub record GaveUp (made first : Calls) : Type 0 where
    pub before : Calls
    pub call : Call
    pub after : Calls
    pub among : before ++ (call ∷ after) ≡ first
    pub bad : Bad (made ++ before) call
    pub soon : length after ≤ 1

  -- What is left of `p` after the calls `made`: it returns `a` and has made all of `calls` in
  -- order, each with an answer that lets it go on; or it throws, has made the first of them, and
  -- got an answer on which it gives up at the end of these.
  pub data Outcome {A : Type 0} (a : A) (calls made : Calls) : Result A × Calls → Type 0 where
    returns :
        (r : Result A) (now : Calls)
        → r ≡ ok a
        → now ≡ made ++ calls
        → Accepted made calls
        → Outcome a calls made (r, now)
    throws :
        (r : Result A) (now first rest : Calls)
        → r ≡ err thrown
        → now ≡ made ++ first
        → first ++ rest ≡ calls
        → GaveUp made first
        → Outcome a calls made (r, now)

  pub record Follows {A : Type 0} (p : Host A) (a : A) (calls : Calls) : Type 0 where
    pub at : (made : Calls) → Outcome a calls made (p made)

  pub Follows-pure : {A : Type 0} (a : A) → Follows (pure a) a []
  unfolding pure
  Follows-pure a = record { at = λ made. returns (ok a) made refl (sym (append-nil made)) tt }

  pub Follows-lift : {A : Type 0} (r : Result A) (a : A) → r ≡ ok a → Follows (lift r) a []
  unfolding lift
  Follows-lift r a h = record { at = λ made. returns r made h (sym (append-nil made)) tt }

  last-Bad : (c : Call) (made : Calls) → Bad made c → GaveUp made (c ∷ [])
  last-Bad c made b = record {
    before = [];
    call = c;
    after = [];
    among = refl;
    bad = subst (λ (x : Calls). Bad x c) (sym (append-nil made)) b;
    soon = omega arith;
  }

  -- A call that is not refused, and of which no more is looked at.
  pub answered :
      (made : Calls) (c : Call) (v : ℕ)
      → look c ≡ for_failure
      → answers made c ≡ some v
      → ¬ Bad made c
  answered made c v plain there (refused _ _ looked gone) = cc
  answered made c v plain there (other_version _ w at ne) = cc
  answered made c v plain there (no_size _ at) = cc

  unlooked : (made : Calls) (c : Call) → look c ≡ not_at_all → ¬ Bad made c
  unlooked made c none_of_it (refused _ _ looked gone) = looked none_of_it
  unlooked made c none_of_it (other_version _ w at ne) = cc
  unlooked made c none_of_it (no_size _ at) = cc

  pub Follows-checked : (c : Call) → look c ≡ for_failure → Follows (checked answers c) tt (c ∷ [])
  unfolding checked ask ◌>>=◌ pure lift
  Follows-checked c plain = record { at = go }
    where
      go : (made : Calls) → Outcome tt (c ∷ []) made (checked answers c made)
      go made = elim (Option-cases (answers made c)) [
        | inl gone ↦ rw gone (
            throws (err thrown) (made ++ (c ∷ [])) (c ∷ []) [] refl refl refl
              (last-Bad c made (refused made c (λ e. ground arith) gone)))
        | inr (v, there) ↦
            rw there
              (returns (ok tt) (made ++ (c ∷ [])) refl refl (answered made c v plain there, tt))
      ]

  pub Follows-ignored : (c : Call) → look c ≡ not_at_all → Follows (ignored answers c) tt (c ∷ [])
  unfolding ignored ask ◌>>=◌ pure
  Follows-ignored c none_of_it = record {
    at = λ made. returns (ok tt) (made ++ (c ∷ [])) refl refl (unlooked made c none_of_it, tt);
  }

  Accepted-append :
      (made cs ds : Calls) → Accepted made cs → Accepted (made ++ cs) ds → Accepted made (cs ++ ds)
  Accepted-append made [] ds h k = subst (λ (x : Calls). Accepted x ds) (append-nil made) k
  Accepted-append made (c ∷ cs) ds (fine, h) k = (
    fine,
    Accepted-append (made ++ (c ∷ [])) cs ds h
        (subst (λ (x : Calls). Accepted x ds) (sym (append_assoc made (c ∷ []) cs)) k),
  )

  -- Earlier calls may be counted in.
  GaveUp-append : (made cs first : Calls) → GaveUp (made ++ cs) first → GaveUp made (cs ++ first)
  GaveUp-append made cs first g = record {
    before = cs ++ g.before;
    call = g.call;
    after = g.after;
    among = append_assoc cs g.before (g.call ∷ g.after) ∙ ap (λ (x : Calls). cs ++ x) g.among;
    bad = subst (λ (x : Calls). Bad x g.call) (append_assoc made cs g.before) g.bad;
    soon = g.soon;
  }

  pub second :
      {B : Type 0} (b : B) (cs ds made now : Calls) (y : Result B × Calls)
      → now ≡ made ++ cs
      → Accepted made cs
      → Outcome b ds now y
      → Outcome b (cs ++ ds) made y
  second b cs ds made now y here fine (returns r last done all more) =
      returns r last done (all ∙ ap (λ (x : Calls). x ++ ds) here ∙ append_assoc made cs ds)
        (Accepted-append made cs ds fine (subst (λ (x : Calls). Accepted x ds) here more))
  second b cs ds made now y here fine (throws r last first rest gone all part bad) =
      throws r last (cs ++ first) rest gone
        (all ∙ ap (λ (x : Calls). x ++ first) here ∙ append_assoc made cs first)
        (append_assoc cs first rest ∙ ap (λ (x : Calls). cs ++ x) part)
        (GaveUp-append made cs first (subst (λ (x : Calls). GaveUp x first) here bad))

  first_then :
      {A B : Type 0} (k : A → Host B) (a : A) (b : B) (cs ds made : Calls) (x : Result A × Calls)
      → Outcome a cs made x
      → Follows (k a) b ds
      → Outcome b (cs ++ ds) made (continue x.0 k x.1)
  first_then k a b cs ds made x (returns r now done all fine) f =
      rw done (second b cs ds made now (k a now) all fine (f.at now))
  first_then k a b cs ds made x (throws r now first rest gone all part bad) f = rw gone (
      throws (err thrown) now first (rest ++ ds) refl all
        (sym (append_assoc first rest ds) ∙ ap (λ (x : Calls). x ++ ds) part) bad)

  pub Follows-bind :
      {A B : Type 0} (p : Host A) (k : A → Host B) (a : A) (b : B) (cs ds : Calls)
      → Follows p a cs
      → Follows (k a) b ds
      → Follows (p >>= k) b (cs ++ ds)
  unfolding ◌>>=◌
  Follows-bind p k a b cs ds fp fk = record {
    at = λ made. first_then k a b cs ds made (p made) (fp.at made) fk;
  }

-- The same, with all that can be read off the goal left out.
module _ {answers : Calls → Call → Option ℕ} {version : ℕ} where
  pub after :
      {A B : Type 0} {p : Host A} {a : A} {b : B} {cs ds : Calls} (k : A → Host B)
      → Follows answers version p a cs
      → Follows answers version (k a) b ds
      → Follows answers version (p >>= k) b (cs ++ ds)
  after {p = p} {a = a} {b = b} {cs = cs} {ds = ds} k fp fk =
      Follows-bind answers version p k a b cs ds fp fk

  pub check :
      {c : Call} → look c ≡ for_failure → Follows answers version (checked answers c) tt (c ∷ [])
  check {c = c} plain = Follows-checked answers version c plain

  pub skip :
      {c : Call} → look c ≡ not_at_all → Follows answers version (ignored answers c) tt (c ∷ [])
  skip {c = c} none_of_it = Follows-ignored answers version c none_of_it

  pub done : {A : Type 0} {a : A} → Follows answers version (pure a) a []
  done {a = a} = Follows-pure answers version a

-- What a system does that gives no such answer.
module _ (answers : Calls → Call → Option ℕ) (version : ℕ)
    (good : (before : Calls) (c : Call) → ¬ Bad answers version before c) where
  all_made :
      {A : Type 0} (a : A) (calls made : Calls) (x : Result A × Calls)
      → Outcome answers version a calls made x
      → x ≡ (ok a, made ++ calls)
  all_made a calls made x (returns r now done all fine) = rw (done, all) refl
  all_made a calls made x (throws r now first rest gone all part bad) =
      absurd (good (made ++ bad.before) bad.call bad.bad)

  pub Follows-good :
      {A : Type 0} (p : Host A) (a : A) (calls made : Calls)
      → Follows answers version p a calls
      → p made ≡ (ok a, made ++ calls)
  Follows-good p a calls made f = all_made a calls made (p made) (f.at made)

  pub then_good :
      {A B : Type 0} (p : Host A) (k : A → Host B) (a : A) (calls made : Calls)
      → Follows answers version p a calls
      → (p >>= k) made ≡ k a (made ++ calls)
  unfolding ◌>>=◌
  then_good p k a calls made f = rw (Follows-good p a calls made f) refl
