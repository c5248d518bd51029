-- ===== src/Reindex/Ends.antt =====
-- The end of a run.
use linux_rag_t.Reindex.Run.{
  new_catalog, raises, start, attempt, fail, finish, initial, run, failed_job, final_job,
}
use linux_rag_t.Reindex.State.{Event, Progress, Service, emit_completion, emit_progress, log_audit}
use linux_rag_t.Reindex.Totals.{emit_progress-collect}
use linux_rag_t.Reindex.Saves.{
  completion_of, save_of, completions, saves, attempt-Attempted, emit_completion-saves,
  log_audit-saves,
}
use linux_rag_t.Prelude.{
  ◌++◌, ap, ◌∙◌, message, ◌⊎◌, ◌≡◌, refl, none, some, inl, inr, ok, err, true, [], ◌∷◌, Bool, Error,
  List, Option, Result, String,
}
use linux_rag_t.Ports.Ingestion.{failed, succeeded, IngestionJob, IngestionTrigger, SourceCatalog}
use linux_rag_t.Domain.Models.{ContentIndexVersion}
use mathlib.Core.Path.{Σ_path}

module _ (c : Service) (quiet : (status : String) → c.append_audit status ≡ none) where
  logged_ok :
      (status : String) (details : Option String) (p : Progress)
      → log_audit c status details p ≡ (none, (log_audit c status details p).1)
  logged_ok status details p = Σ_path (log_audit-saves c quiet status details p).0 refl

  -- The state in which the `try` block starts.
  abbrev pub started : IngestionTrigger → String → Progress
  started trigger job_id =
      (log_audit c "started" none
        (emit_progress c (initial c trigger job_id).job (initial c trigger job_id))).1

  pub started_empty :
      (trigger : IngestionTrigger) (job_id : String)
      → (saves (started trigger job_id).events ≡ [])
        × (completions (started trigger job_id).events ≡ [])
  unfolding emit_progress
  started_empty trigger job_id =
      let logged =
        log_audit-saves c quiet "started" none
          (emit_progress c (initial c trigger job_id).job (initial c trigger job_id)) in
      (
        logged.1
            ∙ emit_progress-collect c save_of (λ j. refl) (initial c trigger job_id).job
                (initial c trigger job_id),
        logged.2
            ∙ emit_progress-collect c completion_of (λ j. refl) (initial c trigger job_id).job
                (initial c trigger job_id),
      )

  pub run-attempt :
      (trigger : IngestionTrigger) (job_id : String) (force : Bool)
      → run c trigger job_id force ≡ finish c (attempt c force (started trigger job_id))
  unfolding run
  run-attempt trigger job_id force =
      ap (λ s. start c s force)
        (logged_ok "started" none
          (emit_progress c (initial c trigger job_id).job (initial c trigger job_id)))

  -- The state in which a failed run ends.
  abbrev told_failure : Error → Progress → Progress
  told_failure e q =
      (log_audit c "failure" (some (message e)) (emit_completion c (failed_job c e q.job) q)).1

  pub fail_lem : (e : Error) (q : Progress) → fail c e q ≡ (err e, (told_failure e q).events)
  unfolding fail
  fail_lem e q =
      ap (raises c e)
        (logged_ok "failure" (some (message e)) (emit_completion c (failed_job c e q.job) q))

  fail_events :
      c.on_complete ≡ true
      → (e : Error) (q : Progress)
      → (saves (told_failure e q).events ≡ saves q.events)
        × (completions (told_failure e q).events
            ≡ completions q.events ++ failed_job c e q.job ∷ [])
  fail_events told e q =
      let told_q = emit_completion-saves c quiet told (failed_job c e q.job) q in
      let logged =
        log_audit-saves c quiet "failure" (some (message e))
          (emit_completion c (failed_job c e q.job) q) in
      (logged.1 ∙ told_q.0, logged.2 ∙ told_q.1)

-- What a run that returns leaves, and one that raises.
abbrev pub Succeeded : Result IngestionJob × List Event → Type 0
Succeeded r =
    (job : IngestionJob) × (r.0 ≡ ok job)
    × (job.status ≡ succeeded)
    × (completions r.1 ≡ job ∷ [])
    × ((catalog : SourceCatalog) × (saves r.1 ≡ catalog ∷ []))

abbrev pub Failed : Service → Result IngestionJob × List Event → Type 0
Failed c r =
    (e : Error) × (job : IngestionJob) × (r.0 ≡ err e)
    × (job.status ≡ failed)
    × (job.error_message ≡ some (message e))
    × (completions r.1 ≡ job ∷ [])
    × ((saves r.1 ≡ []) ⊎ ((version : ContentIndexVersion) × (c.write_index version ≡ some e)))

-- With a caller that is told of the end and an audit log that takes every entry, a run either
-- returns a job with status succeeded, has told of this job once and saved one catalog, or it raises,
-- has told once of a job with status failed and the text of the error, and saved nothing unless it
-- was the index writer that raised.
pub run_ends :
    (c : Service) (trigger : IngestionTrigger) (job_id : String) (force : Bool)
    → c.on_complete ≡ true
    → ((status : String) → c.append_audit status ≡ none)
    → Succeeded (run c trigger job_id force) ⊎ Failed c (run c trigger job_id force)
unfolding run
run_ends c trigger job_id force told quiet =
    let empty = started_empty c quiet trigger job_id in
    elim (attempt-Attempted c quiet told force (started c quiet trigger job_id) empty.0 empty.1) [
      | inl (e, q, k, tq, sq) ↦
          let ends =
            run-attempt c quiet trigger job_id force ∙ ap (finish c) k ∙ fail_lem c quiet e q in
          let events = fail_events c quiet told e q in
          inr (
            rw ends (
              e,
              failed_job c e q.job,
              refl,
              refl,
              refl,
              rw tq at events.1,
              elim sq [ inl none_saved ↦ inl (events.0 ∙ none_saved) | inr w ↦ inr w ],
            ))
      | inr (q, k, tq, saved_one) ↦
          let ends = run-attempt c quiet trigger job_id force ∙ ap (finish c) k in
          inl (
            rw ends (
              final_job c q.job,
              refl,
              refl,
              tq,
              (new_catalog c saved_one.0 saved_one.1, saved_one.4),
            ))
    ]
