-- ===== src/Init/Prepared.antt =====
-- The directories of a bootstrap.
use linux_rag_t.Init.Laws.{Stays, IsHost, and_then-eq-ok}
use linux_rag_t.Prelude.{
  ok_injective, ◌∙◌, sym, ap, refl, none, some, inl, inr, ok, true, [], ◌∷◌, All, Bool, Bool-cases,
  Error, List, Option, String, ◌≡◌,
}
use linux_rag_t.Init.{ensure, Host, prepare_directories, unless_raised}
use mathlib.Core.Path.{subst}

module _ {S : Type 0} (h : Host S) (has_config : S → Bool) (law : IsHost h has_config) where
  pub prepare_again :
      (l : List String) (s : S)
      → All (λ t. h.exists t s ≡ true) l
      → prepare_directories h l s ≡ (ok l, s)
  unfolding prepare_directories
  prepare_again [] s e = refl
  prepare_again (t ∷ l) s e = rw (e.0, prepare_again l s e.1) refl

  made_step :
      (target : String) (s s1 : S) (m : Option Error × S)
      → (m.0 ≡ none → h.exists target m.1 ≡ true)
      → Stays h s m.1
      → unless_raised m ≡ (ok tt, s1)
      → (h.exists target s1 ≡ true) × Stays h s s1
  made_step target s s1 (none, s2) f g e =
      subst (λ x. (h.exists target x ≡ true) × Stays h s x) (ap (λ x. x.1) e) (f refl, g)
  made_step target s s1 (some x, s2) f g e = absurd (cc (ap (λ y. y.0) e))

  ensured :
      (target : String) (s s1 : S)
      → ensure h target s ≡ (ok tt, s1)
      → (h.exists target s1 ≡ true) × Stays h s s1
  ensured target s s1 e = elim (Bool-cases (h.exists target s)) [
    | inl p ↦
        subst (λ x. (h.exists target x ≡ true) × Stays h s x) (ap (λ x. x.1) (rw p at e))
          (p, λ u k. k)
    | inr p ↦
        made_step target s s1 (h.mkdir target s) (law.made target s)
          (λ u. law.mkdir_keeps target u s) (rw p at e)
  ]

  -- After the directories were prepared, each of them is there.
  pub prepared :
      (l : List String) (s : S) (names : List String) (t : S)
      → prepare_directories h l s ≡ (ok names, t)
      → (names ≡ l) × All (λ u. h.exists u t ≡ true) l × Stays h s t
  unfolding prepare_directories
  prepared [] s names t e =
      subst (λ x. (names ≡ []) × Unit {0} × Stays h s x) (ap (λ x. x.1) e)
        (sym (ok_injective _ _ (ap (λ x. x.0) e)), tt, λ u k. k)
  prepared (target ∷ l) s names t e =
      let (_, s1, e1, e2) = and_then-eq-ok _ _ _ _ e in
      let (rest, s2, e3, e4) = and_then-eq-ok _ _ _ _ e2 in
      let (here, kept) = ensured target s s1 e1 in
      let (same, there, more) = prepared l s1 rest s2 e3 in
      subst
        (λ x.
          (names ≡ target ∷ l)
          × ((h.exists target x ≡ true) × All (λ u. h.exists u x ≡ true) l)
          × Stays h s x)
        (ap (λ x. x.1) e4)
        (
          sym (ok_injective _ _ (ap (λ x. x.0) e4)) ∙ ap (λ x. target ∷ x) same,
          (more target here, there),
          λ u k. more u (kept u k),
        )
