-- ===== src/Reindex/Kept.antt =====
-- What a run leaves of each record: all but its location, size, time and checksum.
use linux_rag_t.Reindex.State.{
  chunked, Progress, Service, Step, add_documents, emit_progress, log_event, then_step,
}
use linux_rag_t.Reindex.Source.{
  locate, refresh, refreshed, alias_progress, build_chunks, finish_source, is_changed, reindex_all,
  reindex_source,
}
use mathlib.Core.Path.{subst}
use linux_rag_t.Prelude.{
  sym, ap, ◌++◌, ◌∙◌, map, ℕ, refl, none, some, inl, inr, ok, err, [], arith, ◌∷◌, Bool, Bool-cases,
  List, Result, String, is_nil, ◌≡◌,
}
use linux_rag_t.Transport.Index.{active_sources}
use linux_rag_t.Prelude.Keyed.{keys}
use linux_rag_t.Catalog.Service.{alias_of}
use linux_rag_t.Ports.Ingestion.{IngestionJob, SourceRecord, is_active}
use mathlib.Core.List.{append-nil, append_assoc, map-append}

abbrev pub lasting : SourceRecord → SourceRecord
lasting r = record r { location = ""; size_bytes = 0; last_updated = 0; checksum = none }

-- A step that raises nothing leaves these records.
abbrev pub Leaves : List SourceRecord → Step → Type 0
Leaves l (none, p) = map lasting p.updated_sources ≡ l
Leaves l (some e, p) = Unit

then_step-Leaves :
    (k l : List SourceRecord) (s : Step) (g : Progress → Step)
    → Leaves k s
    → ((q : Progress) → map lasting q.updated_sources ≡ k → Leaves l (g q))
    → Leaves l (then_step s g)
then_step-Leaves k l (none, q) g h f = f q h
then_step-Leaves k l (some e, q) g h f = tt

module _ (c : Service) where
  emit_progress-updated :
      (j : IngestionJob) (p : Progress) → (emit_progress c j p).updated_sources ≡ p.updated_sources
  unfolding emit_progress
  emit_progress-updated j p = ground arith

  alias_progress-updated :
      (sources : ℕ) (alias : String) (calls : List (ℕ × ℕ)) (p : Progress)
      → (alias_progress c sources alias calls p).updated_sources ≡ p.updated_sources
  unfolding alias_progress
  alias_progress-updated sources alias [] p = refl
  alias_progress-updated sources alias ((done, total) ∷ calls) p =
      alias_progress-updated sources alias calls _ ∙ emit_progress-updated _ p

  add_documents-Leaves :
      (p : Progress) (n : Result ℕ) → Leaves (map lasting p.updated_sources) (add_documents p n)
  add_documents-Leaves p (ok n) = refl
  add_documents-Leaves p (err e) = tt

  build_chunks-Leaves :
      (sources : ℕ) (checksum location : String) (r : SourceRecord) (p : Progress)
      → Leaves (map lasting p.updated_sources) (build_chunks c sources checksum location r p)
  unfolding build_chunks
  build_chunks-Leaves sources checksum location r p =
      let calls = (c.chunk_builder r.alias checksum location r.type).0 in
      subst (λ l. Leaves (map lasting l) (build_chunks c sources checksum location r p))
        (alias_progress-updated sources r.alias calls (log_event (chunked r.alias) p))
        (add_documents-Leaves _ (c.chunk_builder r.alias checksum location r.type).1)

  finish_source-updated :
      (sources : ℕ) (stage location : String) (r : SourceRecord) (checksum : String) (p : Progress)
      → map lasting
          (finish_source c sources stage
            (refreshed c location checksum r)
            checksum
            p).updated_sources
        ≡ map lasting p.updated_sources ++ lasting r ∷ []
  unfolding finish_source refreshed
  finish_source-updated sources stage location r checksum p =
      ap (map lasting) (emit_progress-updated _ _) ∙ map-append lasting p.updated_sources _

  refresh-Leaves :
      (sources : ℕ) (force : Bool) (r : SourceRecord) (p : Progress)
      (found : Result (String × String))
      → Leaves (map lasting p.updated_sources ++ lasting r ∷ []) (refresh c sources force r p found)
  refresh-Leaves sources force r p (err e) = tt
  refresh-Leaves sources force r p (ok (location, checksum)) =
      elim (Bool-cases (is_changed c force r checksum)) [
        | inr e ↦ rw e (finish_source-updated _ _ _ _ _ p)
        | inl e ↦ rw e (
            then_step-Leaves _ _ (build_chunks c sources checksum location r p) _
              (build_chunks-Leaves sources checksum location r p)
              (λ q d. finish_source-updated _ _ _ _ _ q ∙ ap (λ l. l ++ lasting r ∷ []) d))
      ]

  reindex_source-Leaves :
      (sources : ℕ) (force : Bool) (r : SourceRecord) (p : Progress)
      → Leaves
          (map lasting p.updated_sources ++ lasting r ∷ [])
          (reindex_source c sources force r p)
  unfolding reindex_source
  reindex_source-Leaves sources force r p = refresh-Leaves sources force r p (locate c r)

  pub reindex_all-Leaves :
      (sources : ℕ) (force : Bool) (l : List SourceRecord) (p : Progress)
      → Leaves (map lasting p.updated_sources ++ map lasting l) (reindex_all c sources force l p)
  unfolding reindex_all
  reindex_all-Leaves sources force [] p = sym (append-nil (map lasting p.updated_sources))
  reindex_all-Leaves sources force (r ∷ l) p = elim (Bool-cases (is_active r.status)) [
    | inl a ↦ rw a (
        then_step-Leaves _ _ _ _ (reindex_source-Leaves sources force r p) (λ q d.
          subst (λ k. Leaves k (reindex_all c sources force l q))
            (ap (λ k. k ++ map lasting l) d
              ∙ append_assoc (map lasting p.updated_sources) (lasting r ∷ []) (map lasting l))
            (reindex_all-Leaves sources force l q)))
    | inr a ↦ rw a (
        subst
          (λ k. Leaves k (
            reindex_all c sources force l
              (record p { updated_sources = p.updated_sources ++ r ∷ [] })))
          (ap (λ k. k ++ map lasting l) (map-append lasting p.updated_sources (r ∷ []))
            ∙ append_assoc (map lasting p.updated_sources) (lasting r ∷ []) (map lasting l))
          (reindex_all-Leaves sources force l _))
  ]

-- The aliases, and whether a source is active, are lasting.
pub keys-lasting : (l : List SourceRecord) → keys alias_of (map lasting l) ≡ keys alias_of l
keys-lasting [] = refl
keys-lasting (r ∷ l) = ap (λ k. r.alias ∷ k) (keys-lasting l)

pub active-lasting :
    (l : List SourceRecord) → is_nil (active_sources (map lasting l)) ≡ is_nil (active_sources l)
active-lasting [] = refl
active-lasting (r ∷ l) = ground (arith, active-lasting l)
