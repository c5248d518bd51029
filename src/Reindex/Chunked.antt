-- ===== src/Reindex/Chunked.antt =====
-- Which sources a run splits into chunks.
use linux_rag_t.Prelude.{
  length, arith, Error, Option, ap, sym, keep, ◌∙◌, if◌then◌else◌, ◌==◌, not, ◌++◌, ℕ, ◌&&◌, ◌||◌,
  refl, none, some, inl, inr, ok, err, true, false, [], ◌∷◌, Bool, Bool-cases, List, Result, String,
  or_empty, ◌≡◌,
}
use linux_rag_t.Reindex.Run.{
  finish, attempt, conclude, final_job, new_catalog, new_index, save_catalog, write_version, run,
}
use linux_rag_t.Reindex.State.{
  wrote, emit_completion, emit_progress, log_audit, audited, completed, progress, chunked, indexed,
  saved, Event, Progress, Service, Step, add_documents, log_event, then_step,
}
use linux_rag_t.Reindex.Source.{
  refresh, locate, build_chunks, is_changed, reindex_all, reindex_source,
}
use linux_rag_t.Reindex.Ends.{started, fail_lem, run-attempt}
use linux_rag_t.Transport.Index.{active_sources}
use linux_rag_t.Reindex.Totals.{
  Step-cases, collect, alias_progress-collect, collect-one, finish_source-collect,
}
use linux_rag_t.Ports.Ingestion.{
  IngestionJob, IngestionTrigger, SourceCatalog, SourceRecord, is_active,
}
use linux_rag_t.Prelude.Keyed.{keys}
use linux_rag_t.Catalog.Service.{alias_of}
use mathlib.Core.Path.{subst}
use mathlib.Core.List.{append-nil, append_assoc}

abbrev chunk_of : Event → List String
chunk_of (saved _) = []
chunk_of (indexed _) = []
chunk_of (chunked alias) = alias ∷ []
chunk_of (progress _) = []
chunk_of (completed _) = []
chunk_of (audited _ _) = []

-- The aliases for which the chunk builder was called, in order.
abbrev pub chunks : List Event → List String
chunks = collect chunk_of

abbrev found_changed : Bool → SourceRecord → Result (String × String) → Bool
found_changed force r (ok (location, checksum)) = force || not (checksum == or_empty r.checksum)
found_changed force r (err e) = false

-- An active source whose file has another checksum than the catalog, or any with `force`.
abbrev pub needs_chunks : Service → Bool → SourceRecord → Bool
needs_chunks c force r = is_active r.status && found_changed force r (locate c r)

abbrev pub Chunks : List String → Step → Type 0
Chunks l (none, p) = chunks p.events ≡ l
Chunks l (some e, p) = Unit

then_step-Chunks :
    (k l : List String) (s : Step) (g : Progress → Step)
    → Chunks k s
    → ((q : Progress) → chunks q.events ≡ k → Chunks l (g q))
    → Chunks l (then_step s g)
then_step-Chunks k l (none, q) g h f = f q h
then_step-Chunks k l (some e, q) g h f = tt

keys_if :
    (b : Bool) (r : SourceRecord) (l : List SourceRecord)
    → keys alias_of (if b then r ∷ l else l) ≡ (if b then r.alias ∷ [] else []) ++ keys alias_of l
keys_if true r l = refl
keys_if false r l = refl

module _ (c : Service) where
  add_documents-Chunks :
      (p : Progress) (n : Result ℕ) → Chunks (chunks p.events) (add_documents p n)
  add_documents-Chunks p (ok n) = refl
  add_documents-Chunks p (err e) = tt

  build_chunks-Chunks :
      (sources : ℕ) (checksum location : String) (r : SourceRecord) (p : Progress)
      → Chunks (chunks p.events ++ r.alias ∷ []) (build_chunks c sources checksum location r p)
  unfolding build_chunks
  build_chunks-Chunks sources checksum location r p =
      let calls = (c.chunk_builder r.alias checksum location r.type).0 in
      subst (λ l. Chunks l (build_chunks c sources checksum location r p))
        (alias_progress-collect c chunk_of (λ j. refl) sources r.alias calls
            (log_event (chunked r.alias) p)
          ∙ collect-one chunk_of p.events (chunked r.alias))
        (add_documents-Chunks _ (c.chunk_builder r.alias checksum location r.type).1)

  refresh-Chunks :
      (sources : ℕ) (force : Bool) (r : SourceRecord) (p : Progress)
      (found : Result (String × String))
      → Chunks
          (chunks p.events ++ (if found_changed force r found then r.alias ∷ [] else []))
          (refresh c sources force r p found)
  refresh-Chunks sources force r p (err e) = tt
  refresh-Chunks sources force r p (ok (location, checksum)) =
      elim (Bool-cases (is_changed c force r checksum)) [
        | inr e ↦ rw e (finish_source-collect c chunk_of (λ j. refl) _ _ _ _ p ∙ sym (append-nil _))
        | inl e ↦ rw e (
            then_step-Chunks _ _ (build_chunks c sources checksum location r p) _
              (build_chunks-Chunks sources checksum location r p)
              (λ q d. finish_source-collect c chunk_of (λ j. refl) _ _ _ _ q ∙ d))
      ]

  reindex_source-Chunks :
      (sources : ℕ) (force : Bool) (r : SourceRecord) (p : Progress)
      → Chunks
          (chunks p.events ++ (if found_changed force r (locate c r) then r.alias ∷ [] else []))
          (reindex_source c sources force r p)
  unfolding reindex_source
  reindex_source-Chunks sources force r p = refresh-Chunks sources force r p (locate c r)

  pub reindex_all-Chunks :
      (sources : ℕ) (force : Bool) (l : List SourceRecord) (p : Progress)
      → Chunks
          (chunks p.events ++ keys alias_of (keep (needs_chunks c force) l))
          (reindex_all c sources force l p)
  unfolding reindex_all
  reindex_all-Chunks sources force [] p = sym (append-nil (chunks p.events))
  reindex_all-Chunks sources force (r ∷ l) p = elim (Bool-cases (is_active r.status)) [
    | inr a ↦ rw a (reindex_all-Chunks sources force l _)
    | inl a ↦ rw a (
        then_step-Chunks _ _ (reindex_source c sources force r p) (reindex_all c sources force l)
          (reindex_source-Chunks sources force r p)
          (λ q d.
            subst (λ k. Chunks k (reindex_all c sources force l q))
              (ap (λ k. k ++ keys alias_of (keep (needs_chunks c force) l)) d
                ∙ append_assoc (chunks p.events) _ _
                ∙ ap (λ k. chunks p.events ++ k)
                    (sym (
                      keys_if (found_changed force r (locate c r)) r
                        (keep (needs_chunks c force) l))))
              (reindex_all-Chunks sources force l q)))
  ]

module _ (c : Service) where
  wrote-Chunks :
      (o : Option Error) (e : Event) (p : Progress)
      → chunk_of e ≡ []
      → Chunks (chunks p.events) (wrote o e p)
  wrote-Chunks none e p h =
      collect-one chunk_of p.events e
      ∙ ap (λ l. chunks p.events ++ l) h
      ∙ append-nil (chunks p.events)
  wrote-Chunks (some x) e p h = tt

  log_audit-Chunks :
      (status : String) (details : Option String) (p : Progress)
      → Chunks (chunks p.events) (log_audit c status details p)
  unfolding log_audit
  log_audit-Chunks status details p = elim (Bool-cases c.has_audit) [
    | inl b ↦ rw b (wrote-Chunks (c.append_audit status) (audited status details) p refl)
    | inr b ↦ rw b refl
  ]

  write_version-Chunks : (p : Progress) → Chunks (chunks p.events) (write_version c p)
  unfolding write_version
  write_version-Chunks p = elim (Bool-cases c.has_writer) [
    | inl b ↦ rw b (wrote-Chunks (c.write_index (new_index c p)) (indexed (new_index c p)) p refl)
    | inr b ↦ rw b refl
  ]

  emit_completion-chunks :
      (j : IngestionJob) (p : Progress) → chunks (emit_completion c j p).events ≡ chunks p.events
  unfolding emit_completion
  emit_completion-chunks j p = elim (Bool-cases c.on_complete) [
    | inl b ↦ rw b (collect-one chunk_of p.events (completed j) ∙ append-nil (chunks p.events))
    | inr b ↦ rw b refl
  ]

  conclude-Chunks :
      (catalog : SourceCatalog) (p : Progress) → Chunks (chunks p.events) (conclude c catalog p)
  unfolding conclude save_catalog
  conclude-Chunks catalog p =
      then_step-Chunks _ _
        (wrote (c.save (new_catalog c catalog p)) (saved (new_catalog c catalog p)) p) _
        (wrote-Chunks (c.save (new_catalog c catalog p)) (saved (new_catalog c catalog p)) p refl)
        (λ q d.
          then_step-Chunks _ _ (write_version c q) _
            (subst (λ k. Chunks k (write_version c q)) d (write_version-Chunks q))
            (λ t e.
              subst
                (λ k.
                  Chunks k (log_audit c "success" none (emit_completion c (final_job c t.job) t)))
                (emit_completion-chunks (final_job c t.job) t ∙ e)
                (log_audit-Chunks "success" none (emit_completion c (final_job c t.job) t))))

  attempt-Chunks :
      (catalog : SourceCatalog) (force : Bool) (p : Progress)
      → c.load ≡ ok catalog
      → Chunks
          (chunks p.events ++ keys alias_of (keep (needs_chunks c force) catalog.sources))
          (attempt c force p)
  unfolding attempt
  attempt-Chunks catalog force p loaded = rw loaded (
      then_step-Chunks _ _
        (reindex_all c (length (active_sources catalog.sources)) force catalog.sources p) _
        (reindex_all-Chunks c (length (active_sources catalog.sources)) force catalog.sources p)
        (λ q d. subst (λ k. Chunks k (conclude c catalog q)) d (conclude-Chunks catalog q)))

  started-chunks :
      (quiet : (status : String) → c.append_audit status ≡ none) (trigger : IngestionTrigger)
      (job_id : String)
      → chunks (started c quiet trigger job_id).events ≡ []
  unfolding log_audit emit_progress
  started-chunks quiet trigger job_id = ground (arith, quiet "started")

-- A run that returns, with an audit log that takes every entry, calls the chunk builder for exactly
-- the active sources of the catalog whose files have another checksum than the catalog says (with
-- `force_rebuild`, all active ones), once each and in the order of the catalog.
pub chunks-run :
    (c : Service) (trigger : IngestionTrigger) (job_id : String) (force : Bool)
    (catalog : SourceCatalog) (job : IngestionJob)
    → ((status : String) → c.append_audit status ≡ none)
    → c.load ≡ ok catalog
    → (run c trigger job_id force).0 ≡ ok job
    → chunks (run c trigger job_id force).1
      ≡ keys alias_of (keep (needs_chunks c force) catalog.sources)
chunks-run c trigger job_id force catalog job quiet loaded done =
    let p = started c quiet trigger job_id in
    elim (Step-cases (attempt c force p)) [
      | inl (e, q, k) ↦
          let ends =
            run-attempt c quiet trigger job_id force ∙ ap (finish c) k ∙ fail_lem c quiet e q in
          absurd (ground (arith, ap (λ (x : Result IngestionJob × List Event). x.0) ends))
      | inr (q, k) ↦
          let ends = run-attempt c quiet trigger job_id force ∙ ap (finish c) k in
          let split =
            subst
              (Chunks
                (chunks p.events ++ keys alias_of (keep (needs_chunks c force) catalog.sources)))
              k (attempt-Chunks c catalog force p loaded) in
          ap (λ (x : Result IngestionJob × List Event). chunks x.1) ends
          ∙ split
          ∙ ap (λ l. l ++ keys alias_of (keep (needs_chunks c force) catalog.sources))
              (started-chunks c quiet trigger job_id)
    ]
