-- ===== src/Init/Again.antt =====
-- A second bootstrap after one that succeeded.
use linux_rag_t.Prelude.{
  ok_injective, sym, ◌∙◌, ap, none, some, Error, Option, Result, refl, ok, true, [], ◌∷◌, All, Bool,
  List, String, ◌≡◌,
}
use linux_rag_t.Init.{
  finish, seed, locations, aliases, bootstrap, Json, InitSummary, unless_raised, Host, is_present,
  seed_missing_sources, summary,
}
use linux_rag_t.Init.Seeded.{IsCovered, seeds, IsListed}
use linux_rag_t.Init.Prepared.{prepared, prepare_again}
use linux_rag_t.Init.Laws.{NamesStem, Stays, and_then-eq-ok, IsHost}
use linux_rag_t.Ports.Ingestion.{SourceCatalog, SourceCreateRequest}
use mathlib.Core.Path.{subst}

module _ {S : Type 0} (h : Host S) (has_config : S → Bool) (law : IsHost h has_config) where
  seed_again :
      (l : List SourceCreateRequest) (known places : List String) (s : S)
      → All (λ q. is_present h known places q ≡ true) l
      → seed_missing_sources h l known places s ≡ (ok [], s)
  unfolding seed_missing_sources
  seed_again [] known places s e = refl
  seed_again (q ∷ l) known places s e = rw (e.0, seed_again l known places s e.1) refl

  module _ (targets : List String) (checks : List (Result Json))
      (defaults : List SourceCreateRequest) where
    -- Where everything is there, a bootstrap changes nothing.
    settled :
        (t : S) (c : SourceCatalog)
        → All (λ u. h.exists u t ≡ true) targets
        → has_config t ≡ true
        → h.list_sources t ≡ ok c
        → All (IsListed h has_config law c) defaults
        → bootstrap h targets checks defaults t
          ≡ (ok (summary h targets checks defaults targets [] c), t)
    unfolding bootstrap seed finish
    settled t c there config listing present =
        rw
          (
            prepare_again h has_config law targets t there,
            law.written t config,
            listing,
            seed_again defaults (aliases c) (locations h.normalize_location c) t present,
            listing,
          )
          refl

    All-Stays :
        {s t : S} (l : List String)
        → Stays h s t
        → All (λ u. h.exists u s ≡ true) l
        → All (λ u. h.exists u t ≡ true) l
    All-Stays [] f i = tt
    All-Stays (u ∷ l) f i = (f u i.0, All-Stays l f i.1)

    wrote :
        (s t : S) (m : Option Error × S)
        → (m.0 ≡ none → has_config m.1 ≡ true)
        → Stays h s m.1
        → unless_raised m ≡ (ok tt, t)
        → (has_config t ≡ true) × Stays h s t
    wrote s t (none, s2) f g e =
        subst (λ x. (has_config x ≡ true) × Stays h s x) (ap (λ x. x.1) e) (f refl, g)
    wrote s t (some x, s2) f g e = absurd (cc (ap (λ y. y.0) e))

    finished :
        (directories : List String) (seeded : List Json) (s t : S) (done : InitSummary)
        → finish h targets checks defaults directories seeded s ≡ (ok done, t)
        → (c : SourceCatalog) × (h.list_sources s ≡ ok c)
          × (summary h targets checks defaults directories seeded c ≡ done)
          × (s ≡ t)
    unfolding finish
    finished directories seeded s t done e =
        let (c, s1, e1, e2) = and_then-eq-ok _ _ _ _ e in
        (
          c,
          ap (λ x. x.0) e1,
          ok_injective _ _ (ap (λ x. x.0) e2),
          ap (λ x. x.1) e1 ∙ ap (λ x. x.1) e2,
        )

    -- What the stage of seeding leaves.
    record IsSeededBy (directories : List String) (s t : S) (done : InitSummary) : Type 0 where
      seeded : List Json
      before : SourceCatalog
      covered : IsCovered h has_config law defaults before s t
      same : summary h targets checks defaults directories seeded covered.catalog ≡ done

    seeded_stage :
        (directories : List String) (s t : S) (done : InitSummary)
        → All (NamesStem h) defaults
        → seed h targets checks defaults directories s ≡ (ok done, t)
        → IsSeededBy directories s t done
    unfolding seed
    seeded_stage directories s t done named e =
        let (c, s1, e1, e2) = and_then-eq-ok _ _ _ _ e in
        let (json, s2, e3, e4) = and_then-eq-ok _ _ _ _ e2 in
        let (final, listing, same, end) = finished directories json s2 t done e4 in
        let start : s ≡ s1 = ap (λ x. x.1) e1 in
        let covered : IsCovered h has_config law defaults c s1 s2 =
          seeds h has_config law defaults (aliases c) (locations h.normalize_location c) s1 s2 json
            c named (subst (λ x. h.list_sources x ≡ ok c) start (ap (λ x. x.0) e1))
            (λ x i. i, λ x i. i) e3 in
        subst (λ x. IsSeededBy directories x t done) (sym start)
          (subst (λ x. IsSeededBy directories s1 x done) end
            (record {
              seeded = json;
              before = c;
              covered = covered;
              same =
                  ap (summary h targets checks defaults directories json)
                    (ok_injective _ _ (sym covered.lists ∙ listing))
                  ∙ same;
            }))

    abbrev without_seeded : InitSummary → InitSummary
    without_seeded d = record d { seeded_sources = [] }

    -- After a bootstrap that succeeded, another one succeeds, changes nothing, seeds nothing, and
    -- has the same summary otherwise, where the host does what `IsHost` says and the catalog has the
    -- alias of each default template after its request (`NamesStem`).
    pub bootstrap_again :
        (s t : S) (done : InitSummary)
        → All (NamesStem h) defaults
        → bootstrap h targets checks defaults s ≡ (ok done, t)
        → bootstrap h targets checks defaults t ≡ (ok (record done { seeded_sources = [] }), t)
    unfolding bootstrap
    bootstrap_again s t done named e =
        let (names, s1, e1, f1) = and_then-eq-ok _ _ _ _ e in
        let (_, s2, e2, f2) = and_then-eq-ok _ _ _ _ f1 in
        let (same, there, _) = prepared h has_config law targets s names s1 e1 in
        let (config, kept) =
          wrote s1 s2 (h.write_default s1) (law.writes s1) (λ u. law.write_keeps u s1) e2 in
        let stage = seeded_stage names s2 t done named f2 in
        let c = stage.covered in
        settled t c.catalog (All-Stays targets (λ u i. c.stay u (kept u i)) there) (c.config config)
          c.lists c.present
        ∙ ap (λ x. (ok x, t))
            (ap without_seeded (
              ap (λ n. summary h targets checks defaults n stage.seeded c.catalog) (sym same)
              ∙ stage.same))
