-- ===== src/Host/Calls.antt =====
-- The calls that a start of the program makes.
use kthxvm.Base.{
  ℕ, ◌≡◌, ◌≢◌, refl, sym, ap, ◌∙◌, [], ◌∷◌, ◌++◌, Option, some, Option-cases, Bool-cases, inl, inr,
  ok, err, thrown, ◌==◌, false, true, subst, arith,
}
use mathlib.Core.List.{append_assoc, append-nil}
use mathlib.Core.Option.{some-injective}
use kthxvm.Host.{
  Call, Calls, ◌>>=◌, pure, lift, ask, checked, open_kvm, api_version, vcpu_mmap_size, create_vcpu,
  mmap_run,
}
use kthxvm.Host.Follows.{
  Bad, refused, other_version, no_size, GaveUp, Outcome, returns, throws, Follows, Follows-checked,
  second, answered,
}
use kthxvm.Host.Setup.{new_kvm, new_vcpu}

abbrev pub vcpu_calls : ℕ → Calls
vcpu_calls i = vcpu_mmap_size ∷ create_vcpu i ∷ mmap_run i ∷ []

-- Two calls, one after the other, and what an answer to either of them makes known.
module _ (answers : Calls → Call → Option ℕ) (version : ℕ) (made : Calls) (a b : Call) where
  after_both : Calls
  after_both = made ++ (a ∷ []) ++ (b ∷ [])

  two : after_both ≡ made ++ (a ∷ b ∷ [])
  unfolding after_both
  two = append_assoc made (a ∷ []) (b ∷ [])

  first-Bad : Bad answers version made a → GaveUp answers version made (a ∷ b ∷ [])
  first-Bad h = record {
    before = [];
    call = a;
    after = b ∷ [];
    among = refl;
    bad = subst (λ (x : Calls). Bad answers version x a) (sym (append-nil made)) h;
    soon = omega arith;
  }

  second-Bad : Bad answers version (made ++ (a ∷ [])) b → GaveUp answers version made (a ∷ b ∷ [])
  second-Bad h = record {
    before = a ∷ [];
    call = b;
    after = [];
    among = refl;
    bad = h;
    soon = omega arith;
  }

  stopped :
      (rest : Calls)
      → GaveUp answers version made (a ∷ b ∷ [])
      → Outcome answers version tt (a ∷ b ∷ rest) made (err thrown, after_both)
  stopped rest g = throws (err thrown) after_both (a ∷ b ∷ []) rest refl two refl g

differs : (v w : ℕ) → (v == w) ≡ false → v ≢ w
differs v w h e = ground arith

module _ (answers : Calls → Call → Option ℕ) (version : ℕ) where
  right_version :
      (made : Calls) (v : ℕ)
      → answers made api_version ≡ some v
      → (v == version) ≡ true
      → ¬ Bad answers version made api_version
  right_version made v said same (refused _ _ looked gone) = cc
  right_version made v said same (other_version _ w at ne) =
      let both : v ≡ w = some-injective v w (sym said ∙ at) in ne (ground arith)

  some_size :
      (made : Calls) (v : ℕ)
      → answers made vcpu_mmap_size ≡ some v
      → (v == 0) ≡ false
      → ¬ Bad answers version made vcpu_mmap_size
  some_size made v said sized (refused _ _ looked gone) = cc
  some_size made v said sized (no_size _ at) =
      let both : v ≡ 0 = some-injective v 0 (sym said ∙ at) in ground arith

  pub new_kvm-Follows :
      Follows answers version (new_kvm answers version) tt (open_kvm ∷ api_version ∷ [])
  unfolding new_kvm after_both ◌>>=◌ ask pure lift
  new_kvm-Follows = record { at = go }
    where
      go :
          (made : Calls)
          → Outcome answers version tt
              (open_kvm ∷ api_version ∷ [])
              made
              (new_kvm answers version made)
      go made = elim (Option-cases (answers made open_kvm)) [
        | inl gone ↦ rw gone (
            stopped answers version made open_kvm api_version [] (
              first-Bad answers version made open_kvm api_version
                (refused made open_kvm (λ e. cc) gone)))
        | inr (n, there) ↦ elim (Option-cases (answers (made ++ (open_kvm ∷ [])) api_version)) [
          | inl gone ↦
              rw (there, gone)
                (stopped answers version made open_kvm api_version [] (
                  second-Bad answers version made open_kvm api_version
                    (refused (made ++ (open_kvm ∷ [])) api_version (λ e. cc) gone)))
          | inr (v, said) ↦ elim (Bool-cases (v == version)) [
            | inl same ↦
                rw (there, said, same)
                  (returns (ok tt) (after_both answers version made open_kvm api_version) refl
                    (two answers version made open_kvm api_version)
                    (
                      answered answers version made open_kvm n refl there,
                      (right_version (made ++ (open_kvm ∷ [])) v said same, tt),
                    ))
            | inr other ↦
                rw (there, said, other)
                  (stopped answers version made open_kvm api_version [] (
                    second-Bad answers version made open_kvm api_version
                      (other_version (made ++ (open_kvm ∷ [])) v said (differs v version other))))
          ]
        ]
      ]

  pub new_vcpu-Follows :
      (i : ℕ) → Follows answers version (new_vcpu answers version i) tt (vcpu_calls i)
  unfolding new_vcpu after_both ◌>>=◌ ask pure lift
  new_vcpu-Follows i = record { at = go }
    where
      go :
          (made : Calls)
          → Outcome answers version tt (vcpu_calls i) made (new_vcpu answers version i made)
      go made =
          let a = vcpu_mmap_size in
          let b = create_vcpu i in
          let give_up = stopped answers version made a b (mmap_run i ∷ []) in
          elim (Option-cases (answers (made ++ (a ∷ [])) b)) [
            | inl gone ↦ rw gone (
                give_up (
                  second-Bad answers version made a b
                    (refused (made ++ (a ∷ [])) b (λ e. cc) gone)))
            | inr (n, there) ↦ elim (Option-cases (answers made a)) [
              | inl gone ↦
                  rw (there, gone)
                    (give_up (first-Bad answers version made a b (refused made a (λ e. cc) gone)))
              | inr (s, said) ↦ elim (Bool-cases (s == 0)) [
                | inl zero_size ↦
                    let nothing : answers made a ≡ some 0 = said ∙ ap some (ground arith) in
                    rw (there, said, zero_size)
                      (give_up (first-Bad answers version made a b (no_size made nothing)))
                | inr sized ↦
                    rw (there, said, sized)
                      (second answers version tt (a ∷ b ∷ []) (mmap_run i ∷ []) made
                        (after_both answers version made a b)
                        (checked answers (mmap_run i) (after_both answers version made a b))
                        (two answers version made a b)
                        (
                          some_size made s said sized,
                          (answered answers version (made ++ (a ∷ [])) b n refl there, tt),
                        )
                        ((Follows-checked answers version (mmap_run i) refl).at
                          (after_both answers version made a b)))
              ]
            ]
          ]
