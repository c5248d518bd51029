-- ===== src/Reindex/Told.antt =====
-- How the effects of a run end, where the audit log takes every entry.
use linux_rag_t.Prelude.{
  sym, message, ◌∙◌, ◌⊎◌, ap, if◌then◌else◌, length, ◌++◌, refl, none, some, inl, inr, ok, err,
  true, [], ◌∷◌, All, All-append, Bool, Bool-cases, Error, List, Option, Result, String, ◌≡◌,
}
use linux_rag_t.Reindex.Run.{
  raises, attempt, conclude, finish, attempt_on, failed_job, final_job, new_catalog, new_index,
  save_catalog, write_version, fail, initial, run,
}
use linux_rag_t.Reindex.State.{
  saved, audited, wrote, completed, indexed, Event, Progress, Service, Step, emit_completion,
  emit_progress, log_audit, log_event, then_step,
}
use mathlib.Core.Path.{subst}
use linux_rag_t.Ports.Ingestion.{succeeded, IngestionJob, IngestionTrigger, SourceCatalog, failed}
use linux_rag_t.Transport.Index.{active_sources}
use linux_rag_t.Reindex.Closes.{
  IsOpen, IsSilent, Open, emit_progress-Open, reindex_all-Open, wrote-Open,
}
use linux_rag_t.Reindex.Source.{reindex_all}
use mathlib.Core.List.{append-nil, append_assoc}
use linux_rag_t.Reindex.Ends.{run-attempt, started}

-- A run tells of a running job, of its last job, and of nothing more.
pub record Closes (r : Result IngestionJob × List Event) : Type 0 where
  pub before : List Event
  pub job : IngestionJob
  pub after : List Event
  pub events : r.1 ≡ before ++ completed job ∷ after
  pub open_before : All IsOpen before
  pub silent_after : All IsSilent after
  pub ends :
      ((r.0 ≡ ok job) × (job.status ≡ succeeded))
      ⊎ ((e : Error) × (r.0 ≡ err e) × (job.status ≡ failed))

module _ (c : Service) (quiet : (status : String) → c.append_audit status ≡ none)
    (told : c.on_complete ≡ true) where
  abbrev log_entries : String → Option String → List Event
  log_entries status details = if c.has_audit then audited status details ∷ [] else []

  log_entries-IsSilent :
      (status : String) (details : Option String) → All IsSilent (log_entries status details)
  log_entries-IsSilent status details = elim (Bool-cases c.has_audit) [
    | inl e ↦ rw e (tt, tt)
    | inr e ↦ rw e tt
  ]

  log_entries-IsOpen :
      (status : String) (details : Option String) → All IsOpen (log_entries status details)
  log_entries-IsOpen status details = elim (Bool-cases c.has_audit) [
    | inl e ↦ rw e (tt, tt)
    | inr e ↦ rw e tt
  ]

  log_audit_lem :
      (status : String) (details : Option String) (p : Progress)
      → log_audit c status details p
        ≡ (none, record p { events = p.events ++ log_entries status details })
  unfolding log_audit
  log_audit_lem status details p = elim (Bool-cases c.has_audit) [
    | inl e ↦ rw (e, quiet status)
    | inr e ↦ rw (e, append-nil)
  ]

  emit_completion_lem :
      (j : IngestionJob) (p : Progress) → emit_completion c j p ≡ log_event (completed j) p
  unfolding emit_completion
  emit_completion_lem j p = rw told

  -- The completion and the entry of the audit log, written one after the other.
  abbrev closing : String → Option String → IngestionJob → Progress → Progress
  closing status details j p = record p {
    events = (p.events ++ completed j ∷ []) ++ log_entries status details;
  }

  closing_lem :
      (status : String) (details : Option String) (j : IngestionJob) (p : Progress)
      → log_audit c status details (emit_completion c j p) ≡ (none, closing status details j p)
  closing_lem status details j p =
      ap (log_audit c status details) (emit_completion_lem j p)
      ∙ log_audit_lem status details (log_event (completed j) p)

  -- What the `try` block leaves: an error before any end, or the end of a run that returns.
  abbrev Left : Step → Type 0
  Left (some e, p) = Open p
  Left (none, q) = (t : Progress) × Open t × (q ≡ closing "success" none (final_job c t.job) t)

  then_step-Left :
      (s : Step) (g : Progress → Step)
      → Open s.1
      → ((q : Progress) → Open q → Left (g q))
      → Left (then_step s g)
  then_step-Left (none, q) g o h = h q o
  then_step-Left (some e, q) g o h = o

  write_version-Open : (p : Progress) → Open p → Open (write_version c p).1
  unfolding write_version
  write_version-Open p o = elim (Bool-cases c.has_writer) [
    | inl e ↦ rw e (wrote-Open (c.write_index (new_index c p)) (indexed (new_index c p)) p tt o)
    | inr e ↦ rw e o
  ]

  conclude-Left : (catalog : SourceCatalog) (p : Progress) → Open p → Left (conclude c catalog p)
  unfolding conclude save_catalog
  conclude-Left catalog p o =
      then_step-Left (wrote (c.save (new_catalog c catalog p)) (saved (new_catalog c catalog p)) p)
        _ (wrote-Open (c.save (new_catalog c catalog p)) (saved (new_catalog c catalog p)) p tt o)
        (λ q oq.
          then_step-Left (write_version c q) _ (write_version-Open q oq)
            (λ t ot. rw (closing_lem "success" none (final_job c t.job) t) (t, ot, refl)))

  attempt_on-Left :
      (force : Bool) (p : Progress) (loaded : Result SourceCatalog)
      → Open p
      → Left (attempt_on c force p loaded)
  attempt_on-Left force p (err e) o = o
  attempt_on-Left force p (ok catalog) o =
      let n = length (active_sources catalog.sources) in
      then_step-Left (reindex_all c n force catalog.sources p) (conclude c catalog)
        (reindex_all-Open c n force catalog.sources p o) (conclude-Left catalog)

  fail-closing :
      (e : Error) (q : Progress)
      → fail c e q ≡ (err e, (closing "failure" (some (message e)) (failed_job c e q.job) q).events)
  unfolding fail
  fail-closing e q =
      ap (raises c e) (closing_lem "failure" (some (message e)) (failed_job c e q.job) q)

  closing-Closes :
      (status : String) (details : Option String) (j : IngestionJob) (p : Progress)
      (result : Result IngestionJob)
      → Open p
      → ((result ≡ ok j) × (j.status ≡ succeeded))
        ⊎ ((e : Error) × (result ≡ err e) × (j.status ≡ failed))
      → Closes (result, (closing status details j p).events)
  closing-Closes status details j p result o ends = record {
    before = p.events;
    job = j;
    after = log_entries status details;
    events = append_assoc p.events (completed j ∷ []) (log_entries status details);
    open_before = o.told;
    silent_after = log_entries-IsSilent status details;
    ends = ends;
  }

  finish-Closes : (s : Step) → Left s → Closes (finish c s)
  finish-Closes (some e, p) o = rw (fail-closing e p) (
      closing-Closes "failure" (some (message e)) (failed_job c e p.job) p (err e) o
        (inr (e, refl, refl)))
  finish-Closes (none, q) (t, o, here) = rw here (
      closing-Closes "success" none (final_job c t.job) t (ok (final_job c t.job)) o
        (inl (refl, refl)))

  started-Open :
      (trigger : IngestionTrigger) (job_id : String) → Open (started c quiet trigger job_id)
  started-Open trigger job_id =
      let p = initial c trigger job_id in
      let o = emit_progress-Open c p.job p refl (record { job = refl; told = tt }) in
      subst Open (ap (λ s. s.1) (sym (log_audit_lem "started" none (emit_progress c p.job p))))
        (record {
          job = o.job;
          told =
              All-append IsOpen (emit_progress c p.job p).events (log_entries "started" none) o.told
                (log_entries-IsOpen "started" none);
        })

  pub run-Closes :
      (trigger : IngestionTrigger) (job_id : String) (force : Bool)
      → Closes (run c trigger job_id force)
  unfolding attempt
  run-Closes trigger job_id force = rw (run-attempt c quiet trigger job_id force) (
      finish-Closes (attempt c force (started c quiet trigger job_id)) (
        attempt_on-Left force (started c quiet trigger job_id) c.load
          (started-Open trigger job_id)))
