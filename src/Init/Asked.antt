-- ===== src/Init/Asked.antt =====
-- A source that a bootstrap asks for.
use linux_rag_t.Init.Laws.{Stays, and_then-eq-ok, IsHost, Grows, IsAdded}
use linux_rag_t.Init.{
  raised, frozen, created, Created, seed_result, aliases, Host, alias_for_request,
}
use linux_rag_t.Prelude.{
  ok_injective, ◌∙◌, ap, sym, ◌==◌, map, inl, inr, arith, Bool-cases, some-injective, contains,
  refl, some, ok, true, [], ◌∷◌, Bool, List, Option, String, ◌≡◌,
}
use linux_rag_t.Prelude.Keyed.{str-eq_refl}
use linux_rag_t.Catalog.Service.{alias_of, find_source}
use linux_rag_t.Ports.Ingestion.{SourceCatalog, SourceCreateRequest, SourceRecord}

contains-find_source :
    (alias : String) (f : SourceRecord → String) (l : List SourceRecord) (r : SourceRecord)
    → find_source alias l ≡ some r
    → contains (map f l) (f r) ≡ true
contains-find_source alias f [] r e = absurd (ground arith)
contains-find_source alias f (x ∷ l) r e = elim (Bool-cases (x.alias == alias)) [
  | inl p ↦ rw (sym (some-injective x r (rw p at e)), str-eq_refl (f x)) refl
  | inr p ↦ elim (Bool-cases (f x == f r)) [
    | inl same ↦ rw same refl
    | inr other ↦ rw (other, contains-find_source alias f l r (rw p at e)) refl
  ]
]

module _ {S : Type 0} (h : Host S) (has_config : S → Bool) (law : IsHost h has_config) where
  -- A source was asked for: the catalog grows, and has it.
  pub record IsSeeded (q : SourceCreateRequest) (c : SourceCatalog) (o : Option SourceRecord)
      (s s1 : S) : Type 0 where
    pub catalog : SourceCatalog
    pub lists : h.list_sources s1 ≡ ok catalog
    pub grows : Grows h.normalize_location c catalog
    pub there : contains (aliases catalog) (alias_for_request q) ≡ true
    pub added : (r : SourceRecord) → o ≡ some r → IsAdded h r catalog
    pub stay : Stays h s s1
    pub config : has_config s ≡ true → has_config s1 ≡ true

  found-IsAdded :
      (alias : String) (d : SourceCatalog) (r : SourceRecord)
      → find_source alias d.sources ≡ some r
      → IsAdded h r d
  unfolding IsAdded
  found-IsAdded alias d r e = (
    contains-find_source alias alias_of d.sources r e,
    contains-find_source alias (λ x. h.normalize_location x.location) d.sources r e,
  )

  -- What `create_source` comes to, where its effects on the catalog are known.
  pub created_step :
      (q : SourceCreateRequest) (c : SourceCatalog) (o : Option SourceRecord) (s s1 : S)
      (m : Created × S)
      → (d : SourceCatalog) → h.list_sources m.1 ≡ ok d
      → Grows h.normalize_location c d
      → ((r : SourceRecord)
          → m.0 ≡ created r
          → IsAdded h r d × (contains (aliases d) (alias_for_request q) ≡ true))
      → (m.0 ≡ frozen → contains (aliases d) (alias_for_request q) ≡ true)
      → Stays h s m.1
      → (has_config s ≡ true → has_config m.1 ≡ true)
      → seed_result h (alias_for_request q) m ≡ (ok o, s1)
      → IsSeeded q c o s s1
  created_step q c o s s1 (created r, s2) d lists grows made icy stay config e =
      rw (sym (ap (λ x. x.1) e)) (record {
        catalog = d;
        lists = lists;
        grows = grows;
        there = (made r refl).1;
        added = λ x k.
            rw (sym (some-injective r x (ok_injective _ _ (ap (λ y. y.0) e) ∙ k))) (made r refl).0;
        stay = stay;
        config = config;
      })
  created_step q c o s s1 (frozen, s2) d lists grows made icy stay config e =
      let (catalog, s3, e1, e2) = and_then-eq-ok _ _ _ _ e in
      let same : s2 ≡ s1 = ap (λ x. x.1) e1 ∙ ap (λ x. x.1) e2 in
      let listing : d ≡ catalog = ok_injective _ _ (sym lists ∙ ap (λ x. x.0) e1) in
      rw (sym same) (record {
        catalog = d;
        lists = lists;
        grows = grows;
        there = icy refl;
        added = λ x k. found-IsAdded (alias_for_request q) d x (
            ap (λ y. find_source (alias_for_request q) y.sources) listing
            ∙ ok_injective _ _ (ap (λ y. y.0) e2)
            ∙ k);
        stay = stay;
        config = config;
      })
  created_step q c o s s1 (raised x, s2) d lists grows made icy stay config e =
      absurd (cc (ap (λ y. y.0) e))
