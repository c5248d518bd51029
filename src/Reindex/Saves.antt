-- ===== src/Reindex/Saves.antt =====
-- How the `try` block of a run ends: what it saved, and what it told the caller.
use linux_rag_t.Prelude.{
  ok, sym, length, Result-cases, Bool, ap, ◌∙◌, Bool-cases, ◌⊎◌, refl, some, inl, inr, Error,
  Option-cases, ◌++◌, none, true, [], arith, ◌∷◌, List, Option, String, ◌≡◌,
}
use linux_rag_t.Reindex.State.{
  Step, log_event, progress, chunked, completed, indexed, audited, saved, Event, Progress, Service,
  emit_completion, log_audit,
}
use linux_rag_t.Reindex.Source.{reindex_all}
use linux_rag_t.Reindex.Run.{
  attempt, conclude, final_job, new_catalog, new_index, save_catalog, write_version,
}
use linux_rag_t.Ports.Ingestion.{IngestionJob, SourceCatalog}
use linux_rag_t.Transport.Index.{active_sources}
use linux_rag_t.Reindex.Totals.{Step-cases, reindex_all-Keeps, collect, collect-one}
use mathlib.Core.Path.{Σ_path}
use linux_rag_t.Domain.Models.{ContentIndexVersion}
use mathlib.Core.List.{append-nil}

abbrev pub save_of : Event → List SourceCatalog
save_of (saved catalog) = catalog ∷ []
save_of (indexed _) = []
save_of (chunked _) = []
save_of (progress _) = []
save_of (completed _) = []
save_of (audited _ _) = []

abbrev pub completion_of : Event → List IngestionJob
completion_of (saved _) = []
completion_of (indexed _) = []
completion_of (chunked _) = []
completion_of (progress _) = []
completion_of (completed job) = job ∷ []
completion_of (audited _ _) = []

-- The catalogs saved and the jobs reported as complete, in order.
abbrev pub saves : List Event → List SourceCatalog
saves = collect save_of

abbrev pub completions : List Event → List IngestionJob
completions = collect completion_of

module _ (c : Service) (quiet : (status : String) → c.append_audit status ≡ none) where
  pub log_audit-saves :
      (status : String) (details : Option String) (p : Progress)
      → ((log_audit c status details p).0 ≡ none)
        × (saves (log_audit c status details p).1.events ≡ saves p.events)
        × (completions (log_audit c status details p).1.events ≡ completions p.events)
        × ((log_audit c status details p).1.job ≡ p.job)
  unfolding log_audit
  log_audit-saves status details p = ground (
    arith,
    quiet status,
    collect-one save_of p.events (audited status details),
    collect-one completion_of p.events (audited status details),
    append-nil (saves p.events),
    append-nil (completions p.events),
  )

  pub emit_completion-saves :
      c.on_complete ≡ true
      → (j : IngestionJob) (p : Progress)
      → (saves (emit_completion c j p).events ≡ saves p.events)
        × (completions (emit_completion c j p).events ≡ completions p.events ++ j ∷ [])
        × ((emit_completion c j p).job ≡ p.job)
  unfolding emit_completion
  emit_completion-saves told j p = ground (
    arith,
    told,
    collect-one save_of p.events (completed j),
    collect-one completion_of p.events (completed j),
    append-nil (saves p.events),
  )

  save_catalog-saves :
      (catalog : SourceCatalog) (p : Progress)
      → ((e : Error) × (save_catalog c catalog p ≡ (some e, p)))
        ⊎ ((save_catalog c catalog p ≡ (none, log_event (saved catalog) p)))
  unfolding save_catalog
  save_catalog-saves catalog p = elim (Option-cases (c.save catalog)) [
    | inl h ↦ inr (rw h refl)
    | inr (e, h) ↦ inl (e, rw h refl)
  ]

  -- The index writer raised, or it did not and the version is written.
  write_version-saves :
      (p : Progress)
      → ((e : Error) × (c.write_index (new_index c p) ≡ some e) × (write_version c p ≡ (some e, p)))
        ⊎ ((q : Progress) × (write_version c p ≡ (none, q))
            × (saves q.events ≡ saves p.events)
            × (completions q.events ≡ completions p.events))
  unfolding write_version
  write_version-saves p = elim (Option-cases (c.write_index (new_index c p))) [
    | inr (e, h) ↦ elim (Bool-cases c.has_writer) [
      | inl b ↦ inl (e, h, rw (b, h) refl)
      | inr b ↦ inr (p, rw b refl, refl, refl)
    ]
    | inl h ↦ elim (Bool-cases c.has_writer) [
      | inl b ↦ inr (
        log_event (indexed (new_index c p)) p,
        rw (b, h) refl,
        indexed_same save_of refl,
        indexed_same completion_of refl,
      )
      | inr b ↦ inr (p, rw b refl, refl, refl)
    ]
  ]
    where
      indexed_same :
          {B : Type 0} (f : Event → List B)
          → f (indexed (new_index c p)) ≡ []
          → collect f (p.events ++ indexed (new_index c p) ∷ []) ≡ collect f p.events
      indexed_same f e =
          collect-one f p.events (indexed (new_index c p))
          ∙ ap (λ l. collect f p.events ++ l) e
          ∙ append-nil (collect f p.events)

  -- How the code after the loop ends.
  abbrev pub Concluded : SourceCatalog → Progress → Type 0
  Concluded catalog p =
      ((e : Error) × (q : Progress) × (conclude c catalog p ≡ (some e, q))
        × (completions q.events ≡ completions p.events)
        × ((saves q.events ≡ saves p.events)
            ⊎ ((version : ContentIndexVersion) × (c.write_index version ≡ some e))))
      ⊎ ((q : Progress) × (conclude c catalog p ≡ (none, q))
          × (completions q.events ≡ completions p.events ++ final_job c q.job ∷ [])
          × (saves q.events ≡ saves p.events ++ new_catalog c catalog p ∷ []))

  conclude-Concluded :
      c.on_complete ≡ true → (catalog : SourceCatalog) (p : Progress) → Concluded catalog p
  unfolding conclude
  conclude-Concluded told catalog p = elim (save_catalog-saves (new_catalog c catalog p) p) [
    | inl (e, h) ↦ inl (e, p, rw h refl, refl, inl refl)
    | inr h ↦ (elim (write_version-saves (log_event (saved (new_catalog c catalog p)) p)) [
      | inl (e, w, k) ↦
          inl (
            e,
            log_event (saved (new_catalog c catalog p)) p,
            rw (h, k) refl,
            saved_same,
            inr (_, w),
          )
      | inr (q, k, sq, cq) ↦
          let told_q = emit_completion-saves told (final_job c q.job) q in
          let logged = log_audit-saves "success" none (emit_completion c (final_job c q.job) q) in
          inr (
            (log_audit c "success" none (emit_completion c (final_job c q.job) q)).1,
            rw (h, k) (Σ_path logged.0 refl),
            rw (logged.3, told_q.2)
                (logged.2 ∙ told_q.1 ∙ ap (λ l. l ++ final_job c q.job ∷ []) (cq ∙ saved_same)),
            logged.1 ∙ told_q.0 ∙ sq ∙ collect-one save_of p.events _,
          )
    ])
  ]
    where
      saved_same :
          completions (p.events ++ saved (new_catalog c catalog p) ∷ []) ≡ completions p.events
      saved_same =
          collect-one completion_of p.events (saved (new_catalog c catalog p))
          ∙ append-nil (completions p.events)

  -- One catalog was saved, the one that the loop gives.
  abbrev pub Rebuilt : Bool → Progress → List Event → Type 0
  Rebuilt force p events =
      (catalog : SourceCatalog) × (t : Progress) × (c.load ≡ ok catalog)
      × (reindex_all c (length (active_sources catalog.sources)) force catalog.sources p
          ≡ (none, t))
      × (saves events ≡ new_catalog c catalog t ∷ [])

  -- How the `try` block ends, from a state in which nothing was saved and nothing told.
  abbrev pub Attempted : Bool → Progress → Type 0
  Attempted force p =
      ((e : Error) × (q : Progress) × (attempt c force p ≡ (some e, q))
        × (completions q.events ≡ [])
        × ((saves q.events ≡ [])
            ⊎ ((version : ContentIndexVersion) × (c.write_index version ≡ some e))))
      ⊎ ((q : Progress) × (attempt c force p ≡ (none, q))
          × (completions q.events ≡ final_job c q.job ∷ [])
          × Rebuilt force p q.events)

  pub attempt-Attempted :
      c.on_complete ≡ true
      → (force : Bool) (p : Progress) → saves p.events ≡ []
      → completions p.events ≡ []
      → Attempted force p
  unfolding attempt
  attempt-Attempted told force p s t = elim (Result-cases c.load) [
    | inr (e, h) ↦ inl (e, p, rw h refl, t, inl s)
    | inl (catalog, h) ↦
        let sources = length (active_sources catalog.sources) in
        let loop = reindex_all c sources force catalog.sources p in
        let kept_saves : saves loop.1.events ≡ saves p.events =
          reindex_all-Keeps c save_of (λ j. refl) (λ a. refl) sources force catalog.sources p in
        let kept_told : completions loop.1.events ≡ completions p.events =
          reindex_all-Keeps c completion_of (λ j. refl) (λ a. refl) sources force catalog.sources
            p in
        elim (Step-cases loop) [
          | inl (e, q, k) ↦ inl (
            e,
            q,
            rw (h, k) refl,
            ap (λ (x : Step). completions x.1.events) (sym k) ∙ kept_told ∙ t,
            inl (ap (λ (x : Step). saves x.1.events) (sym k) ∙ kept_saves ∙ s),
          )
          | inr (q, k) ↦
              let s1 : saves q.events ≡ [] =
                ap (λ (x : Step). saves x.1.events) (sym k) ∙ kept_saves ∙ s in
              let t1 : completions q.events ≡ [] =
                ap (λ (x : Step). completions x.1.events) (sym k) ∙ kept_told ∙ t in
              elim (conclude-Concluded told catalog q) [
                | inl (e, x, ended, tx, inl sx) ↦
                    inl (e, x, rw (h, k) ended, tx ∙ t1, inl (sx ∙ s1))
                | inl (e, x, ended, tx, inr w) ↦ inl (e, x, rw (h, k) ended, tx ∙ t1, inr w)
                | inr (x, ended, tx, sx) ↦
                    inr (x, rw (h, k) ended, rw t1 at tx, (catalog, q, h, k, rw s1 at sx))
              ]
        ]
  ]
