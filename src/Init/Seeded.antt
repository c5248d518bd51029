-- ===== src/Init/Seeded.antt =====
-- The sources that a bootstrap looked for are in the catalog that it leaves.
use linux_rag_t.Init.Laws.{NamesStem, is_created, Stays, IsHost, Grows, IsAdded, and_then-eq-ok}
use linux_rag_t.Init.{
  locations, Json, aliases, Host, alias_for_request, invoke_seed_request, is_present,
  prepared_request, seed_missing_sources,
}
use linux_rag_t.Prelude.{
  ap, ◌==◌, contains, refl, inl, inr, ok, true, [], arith, ◌∷◌, All, Bool, Bool-cases, List, Option,
  Option-cases, String, eq_iff, ◌≡◌,
}
use linux_rag_t.Init.Asked.{IsSeeded, created_step}
use linux_rag_t.Init.Alias.{stem-apply_alias}
use linux_rag_t.Ports.Ingestion.{SourceCatalog, SourceCreateRequest, SourceRecord}
use mathlib.Core.Path.{subst}

contains_cons :
    (a x : String) (l m : List String)
    → contains m a ≡ true
    → (contains l x ≡ true → contains m x ≡ true)
    → contains (a ∷ l) x ≡ true
    → contains m x ≡ true
contains_cons a x l m p f e = elim (Bool-cases (a == x)) [
  | inl same ↦ subst (λ y. contains m y ≡ true) ((eq_iff a x).0 same) p
  | inr other ↦ f (rw other at e)
]

module _ {S : Type 0} (h : Host S) (has_config : S → Bool) (law : IsHost h has_config) where
  invoke_seed_request-IsSeeded :
      (q : SourceCreateRequest) (c : SourceCatalog) (o : Option SourceRecord) (s s1 : S)
      → NamesStem h q
      → h.list_sources s ≡ ok c
      → invoke_seed_request h (prepared_request q) (alias_for_request q) s ≡ (ok o, s1)
      → IsSeeded h has_config law q c o s s1
  unfolding invoke_seed_request
  invoke_seed_request-IsSeeded q c o s s1 named listing e =
      let (d, after, grows) = law.lists (prepared_request q) s c listing in
      created_step h has_config law q c o s s1 (h.create_source (prepared_request q) s) d after
        grows
        (λ r k. (
          law.adds (prepared_request q) s r d k after,
          subst (λ x. contains (aliases d) x ≡ true) (stem-apply_alias q)
              (named s d (ap is_created k) after),
        ))
        (λ k.
          subst (λ x. contains (aliases d) x ≡ true) (stem-apply_alias q)
            (named s d (ap is_created k) after))
        (λ u. law.create_keeps (prepared_request q) u s) (law.config_stays (prepared_request q) s) e

  abbrev Covers : List String → List String → SourceCatalog → Type 0
  Covers known places c =
      ((x : String) → contains known x ≡ true → contains (aliases c) x ≡ true)
      × ((x : String)
          → contains places x ≡ true
          → contains (locations h.normalize_location c) x ≡ true)

  abbrev pub IsListed : SourceCatalog → SourceCreateRequest → Type 0
  IsListed c q = is_present h (aliases c) (locations h.normalize_location c) q ≡ true

  is_present-IsListed :
      (q : SourceCreateRequest) (known places : List String) (c : SourceCatalog)
      → Covers known places c
      → is_present h known places q ≡ true
      → IsListed c q
  is_present-IsListed q known places c (f, g) p =
      elim (Bool-cases (contains known (alias_for_request q))) [
        | inl e ↦ rw (f (alias_for_request q) e) refl
        | inr e ↦ rw (g (h.normalize_location q.location) (rw e at p)) (ground arith)
      ]

  -- From the catalog c and the state s, a loop over the list ended in the state t.
  pub record IsCovered (l : List SourceCreateRequest) (c : SourceCatalog) (s t : S) : Type 0 where
    pub catalog : SourceCatalog
    pub lists : h.list_sources t ≡ ok catalog
    pub grows : Covers (aliases c) (locations h.normalize_location c) catalog
    pub present : All (IsListed catalog) l
    pub stay : Stays h s t
    pub config : has_config s ≡ true → has_config t ≡ true

  IsSeeded-IsCovered :
      (q : SourceCreateRequest) (l : List SourceCreateRequest) (c : SourceCatalog)
      (o : Option SourceRecord) (s s1 t : S) (k : IsSeeded h has_config law q c o s s1)
      → IsCovered l k.catalog s1 t
      → IsCovered (q ∷ l) c s t
  unfolding Grows
  IsSeeded-IsCovered q l c o s s1 t k more = record {
    catalog = more.catalog;
    lists = more.lists;
    grows = (λ x e. more.grows.0 x (k.grows.0 x e), λ x e. more.grows.1 x (k.grows.1 x e));
    present = (rw (more.grows.0 (alias_for_request q) k.there) refl, more.present);
    stay = λ u e. more.stay u (k.stay u e);
    config = λ e. more.config (k.config e);
  }

  pub seeds :
      (l : List SourceCreateRequest) (known places : List String) (s t : S) (out : List Json)
      (c : SourceCatalog)
      → All (NamesStem h) l
      → h.list_sources s ≡ ok c
      → Covers known places c
      → seed_missing_sources h l known places s ≡ (ok out, t)
      → IsCovered l c s t
  unfolding seed_missing_sources Grows IsAdded
  seeds [] known places s t out c named listing covers e =
      subst (IsCovered [] c s) (ap (λ x. x.1) e) (record {
        catalog = c;
        lists = listing;
        grows = (λ x k. k, λ x k. k);
        present = tt;
        stay = λ u k. k;
        config = λ k. k;
      })
  seeds (q ∷ l) known places s t out c named listing covers e =
      elim (Bool-cases (is_present h known places q)) [
        | inl p ↦
            let more = seeds l known places s t out c named.1 listing covers (rw p at e) in
            record {
              catalog = more.catalog;
              lists = more.lists;
              grows = more.grows;
              present = (
                is_present-IsListed q known places more.catalog
                    (λ x k. more.grows.0 x (covers.0 x k), λ x k. more.grows.1 x (covers.1 x k)) p,
                more.present,
              );
              stay = more.stay;
              config = more.config;
            }
        | inr p ↦
            let (o, s1, e1, e2) = and_then-eq-ok _ _ _ _ (rw p at e) in
            let k = invoke_seed_request-IsSeeded q c o s s1 named.0 listing e1 in
            elim (Option-cases o) [
              | inl n ↦ IsSeeded-IsCovered q l c o s s1 t k (
                  seeds l known places s1 t out k.catalog named.1 k.lists
                    (λ x i. k.grows.0 x (covers.0 x i), λ x i. k.grows.1 x (covers.1 x i))
                    (rw n at e2))
              | inr (r, n) ↦
                  let (rest, s2, e3, e4) = and_then-eq-ok _ _ _ _ (rw n at e2) in
                  let (here, place) = k.added r n in
                  subst (IsCovered (q ∷ l) c s) (ap (λ x. x.1) e4) (
                    IsSeeded-IsCovered q l c o s s1 s2 k (
                      seeds l (r.alias ∷ known) (h.normalize_location r.location ∷ places) s1 s2
                        rest k.catalog named.1 k.lists
                        (
                          λ x i.
                              contains_cons r.alias x known (aliases k.catalog) here
                                (λ j. k.grows.0 x (covers.0 x j)) i,
                          λ x i.
                              contains_cons (h.normalize_location r.location) x places
                                (locations h.normalize_location k.catalog) place
                                (λ j. k.grows.1 x (covers.1 x j)) i,
                        )
                        e3))
            ]
      ]
