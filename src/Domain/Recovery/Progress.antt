-- ===== src/Domain/Recovery/Progress.antt =====
-- A checkpoint and the plan made from it share the documents out.
use linux_rag_t.Prelude.{
  sym, ap, ◌++◌, ◌∙◌, refl, Perm, if◌then◌else◌, ◌≢◌, length, ◌↔◌, contains, ◌<◌, not, ◌≤◌, keep, ℕ,
  some, ok, [], arith, ◌∷◌, List, String, is_nil, ◌≡◌,
}
use linux_rag_t.Prelude.Split.{keep_full, keep_none, length-keep, keep-not-contains, keep-perm}
use linux_rag_t.Ports.Ingestion.{running, IngestionJob}
use linux_rag_t.Domain.Recovery.{
  collection, generator, Checkpoint, ResumePlan, plan_resume, record_progress,
}

-- What a checkpoint of a running job records, for a collection of processed documents.
pub recorded :
    (now : ℕ) (job : IngestionJob) (processed docs : List String) (c : Checkpoint)
    → record_progress now job (collection processed) docs ≡ ok c
    → (job.status ≡ running)
      × (c.processed_document_ids ≡ keep (contains processed) docs)
      × (c.percent_complete.num ≡ length c.processed_document_ids)
      × (0 < c.percent_complete.den)
      × (c.percent_complete.den ≡ (if is_nil docs then 1 else length docs))
unfolding record_progress
recorded now job processed [] c h = ground arith
recorded now job processed (d ∷ docs) c h = ground arith

planned :
    (now : ℕ) (job : IngestionJob) (c : Checkpoint) (docs : List String) (p : ResumePlan)
    → plan_resume now job (some c) docs ≡ ok p
    → (p.remaining_document_ids ≡ keep (λ d. not (contains c.processed_document_ids d)) docs)
      × (p.percent_complete ≡ c.percent_complete)
unfolding plan_resume
planned now job c docs p h = ground arith

-- Nothing is lost and nothing is done twice: the documents of a checkpoint and those that the plan
-- made from it leaves to do are together the documents of the job, each as often as there.
pub checkpoint_plan_perm :
    (now later : ℕ) (job job' : IngestionJob) (processed docs : List String) (c : Checkpoint)
    (p : ResumePlan)
    → record_progress now job (collection processed) docs ≡ ok c
    → plan_resume later job' (some c) docs ≡ ok p
    → Perm (c.processed_document_ids ++ p.remaining_document_ids) docs
checkpoint_plan_perm now later job job' processed docs c p h k =
    let ids = (recorded now job processed docs c h).1 in
    let rest = (planned later job' c docs p k).0 in
    rw rest (
      rw ids
        (rw (keep-not-contains (contains processed) docs) (keep-perm (contains processed) docs)))

-- The recorded percentage lies between 0 and 100, and is 100 exactly when every document of a job
-- that has one was processed.
pub checkpoint_percent :
    (now : ℕ) (job : IngestionJob) (processed docs : List String) (c : Checkpoint)
    → record_progress now job (collection processed) docs ≡ ok c
    → (c.percent_complete.num ≤ c.percent_complete.den)
      × (0 < c.percent_complete.den)
      × ((c.percent_complete.num ≡ c.percent_complete.den)
          ↔ ((docs ≢ []) × (keep (contains processed) docs ≡ docs)))
checkpoint_percent now job processed [] c h =
    let r = recorded now job processed [] c h in
    (
      ground arith,
      ground arith,
      (λ e. absurd (omega (arith, r.2 ∙ ap length r.1)), λ (some_doc, all). absurd (some_doc refl)),
    )
checkpoint_percent now job processed (d ∷ docs) c h =
    let r = recorded now job processed (d ∷ docs) c h in
    let short = length-keep (contains processed) (d ∷ docs) in
    let full = keep_full (contains processed) (d ∷ docs) in
    let count : c.percent_complete.num ≡ length (keep (contains processed) (d ∷ docs)) =
      r.2 ∙ ap length r.1 in
    (
      omega arith,
      r.3,
      (λ e. (λ bad. cc, full (omega arith)), λ (some_doc, all). count ∙ ap length all ∙ sym r.4),
    )

-- A generator of processed documents has been read for the trace before it is read for the
-- checkpoint: no progress is recorded, whatever it yields.
pub record_progress_generator :
    (now : ℕ) (job : IngestionJob) (processed docs : List String) (c : Checkpoint)
    → record_progress now job (generator processed) docs ≡ ok c
    → (c.processed_document_ids ≡ []) × (c.percent_complete.num ≡ 0)
unfolding record_progress
record_progress_generator now job processed [] c h = ground arith
record_progress_generator now job processed (d ∷ docs) c h =
    ground (arith, keep_none (contains []) (d ∷ docs) (λ s. refl))
