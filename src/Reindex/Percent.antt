-- ===== src/Reindex/Percent.antt =====
-- No percentage that a run reports is above 100.
use linux_rag_t.Prelude.{
  length, message, ℕ, none, some, inl, inr, ok, err, arith, All, Bool, Bool-cases, Error, Option,
  Result, String,
}
use linux_rag_t.Reindex.Run.{
  finish, raises, start, attempt, conclude, attempt_on, failed_job, final_job, new_catalog,
  new_index, save_catalog, write_version, run, initial, fail,
}
use linux_rag_t.Reindex.State.{
  wrote, Progress, Service, Step, emit_completion, emit_progress, log_audit, saved, indexed,
  audited,
}
use linux_rag_t.Reindex.Source.{reindex_all}
use linux_rag_t.Transport.Index.{active_sources}
use linux_rag_t.Reindex.Bounds.{
  After, Counts, Fair, InBounds, emit_completion-Fair, emit_progress-Fair, reindex_all-After,
  then_step-After, wrote-After,
}
use linux_rag_t.Ports.Ingestion.{IngestionTrigger, SourceCatalog}

module _ (c : Service) where
  log_audit-After :
      (sources k : ℕ) (status : String) (details : Option String) (p : Progress)
      → Fair sources k p
      → After sources k (log_audit c status details p)
  unfolding log_audit
  log_audit-After sources k status details p f = elim (Bool-cases c.has_audit) [
    | inl e ↦ rw e (wrote-After sources k (c.append_audit status) (audited status details) p tt f)
    | inr e ↦ rw e f
  ]

  write_version-After :
      (sources : ℕ) (p : Progress) → Fair sources 0 p → After sources 0 (write_version c p)
  unfolding write_version
  write_version-After sources p f = elim (Bool-cases c.has_writer) [
    | inl e ↦
        rw e
          (wrote-After sources 0 (c.write_index (new_index c p)) (indexed (new_index c p)) p tt f)
    | inr e ↦ rw e f
  ]

  conclude-After :
      (sources : ℕ) (catalog : SourceCatalog) (p : Progress)
      → Fair sources 0 p
      → After sources 0 (conclude c catalog p)
  unfolding conclude save_catalog
  conclude-After sources catalog p f =
      then_step-After sources 0 0
        (wrote (c.save (new_catalog c catalog p)) (saved (new_catalog c catalog p)) p) _
        (wrote-After sources 0 (c.save (new_catalog c catalog p)) (saved (new_catalog c catalog p))
          p tt f)
        (λ q g.
          then_step-After sources 0 0 (write_version c q) _ (write_version-After sources q g)
            (λ t h.
              log_audit-After sources 0 "success" none (emit_completion c (final_job c t.job) t)
                (emit_completion-Fair c sources (final_job c t.job) t (omega arith) h)))

  raises-InBounds :
      (sources : ℕ) (e : Error) (s : Step) → After sources 0 s → All InBounds (raises c e s).1
  raises-InBounds sources e (none, q) f = f.told
  raises-InBounds sources e (some x, q) f = f.told

  fail-InBounds :
      (sources : ℕ) (e : Error) (q : Progress) → Fair sources 0 q → All InBounds (fail c e q).1
  unfolding fail
  fail-InBounds sources e q f = raises-InBounds sources e _ (
      log_audit-After sources 0 "failure" (some (message e))
        (emit_completion c (failed_job c e q.job) q)
        (emit_completion-Fair c sources (failed_job c e q.job) q f.job f))

  finish-InBounds : (sources : ℕ) (s : Step) → After sources 0 s → All InBounds (finish c s).1
  finish-InBounds sources (none, q) f = f.told
  finish-InBounds sources (some e, q) f = fail-InBounds sources e q f

  attempt_on-InBounds :
      (counts : Counts c) (force : Bool) (p : Progress) (loaded : Result SourceCatalog)
      → ((k : ℕ) → Fair k k p)
      → All InBounds (finish c (attempt_on c force p loaded)).1
  attempt_on-InBounds counts force p (err e) f = finish-InBounds 0 (some e, p) (f 0)
  attempt_on-InBounds counts force p (ok catalog) f =
      let n = length (active_sources catalog.sources) in
      finish-InBounds n _ (
        then_step-After n 0 0 (reindex_all c n force catalog.sources p) (conclude c catalog)
          (reindex_all-After c n counts force catalog.sources p (f n)) (conclude-After n catalog))

  start-InBounds :
      (counts : Counts c) (force : Bool) (s : Step)
      → ((k : ℕ) → After k k s)
      → All InBounds (start c s force).1
  unfolding attempt
  start-InBounds counts force (some e, p) f = (f 0).told
  start-InBounds counts force (none, p) f = attempt_on-InBounds counts force p c.load f

-- Where the chunk builder never tells of more documents than there are, no job that a run reports, be
-- it in progress or at its end, shows more than 100 percent, however the run ends.
pub run-InBounds :
    (c : Service) (trigger : IngestionTrigger) (job_id : String) (force : Bool)
    → Counts c
    → All InBounds (run c trigger job_id force).1
unfolding run
run-InBounds c trigger job_id force counts =
    let p = initial c trigger job_id in
    start-InBounds c counts force (log_audit c "started" none (emit_progress c p.job p)) (λ k.
      log_audit-After c k k "started" none (emit_progress c p.job p) (
        emit_progress-Fair c k k p.job p (omega arith)
          (record { told = tt; job = omega arith; room = omega arith })))
