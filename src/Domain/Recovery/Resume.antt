-- ===== src/Domain/Recovery/Resume.antt =====
-- Jobs through their life cycle: run, complete, and resume after an interruption.
use linux_rag_t.Prelude.{
  Result, contains, not, ap, keep, sym, true, inl, inr, Bool-cases, bind-eq-ok, is_nil, ◌↔◌, length,
  ◌⊎◌, ◌≢◌, ℕ, refl, none, some, ok, [], arith, ◌∷◌, List, Option, String, ◌≡◌,
}
use linux_rag_t.Domain.Recovery.Progress.{recorded}
use linux_rag_t.Domain.Recovery.{
  plan_of, plan_resume, first_plan, resumed_job, collection, resume, Checkpoint, ResumePlan,
  record_progress,
}
use linux_rag_t.Prelude.Split.{keep-not-contains, keep_all_iff}
use linux_rag_t.Ports.Ingestion.{failed, queued, succeeded, running, IngestionJob, full_percent}
use linux_rag_t.Prelude.Int.{ℤ}
use linux_rag_t.Domain.Sources.{mark_ingestion_running, mark_ingestion_succeeded}

-- A well-formed job: running means started, succeeded means completed in full, and a job that is not
-- over has no time of completion.
pub record IsJob (j : IngestionJob) : Type 0 where
  pub started : j.status ≡ running → j.started_at ≢ none
  pub complete :
      j.status ≡ succeeded → (j.completed_at ≢ none) × (j.percent_complete ≡ some full_percent)
  pub open_running : j.status ≡ running → j.completed_at ≡ none
  pub open_queued : j.status ≡ queued → j.completed_at ≡ none

-- The operations on a job.
pub data JobStep (j : IngestionJob) : IngestionJob → Type 0 where
  runs :
      {k : IngestionJob} (now : ℕ) (stage : String)
      → mark_ingestion_running now stage j ≡ ok k
      → JobStep j k
  succeeds :
      {k : IngestionJob} (now : ℕ) (n : ℤ) → mark_ingestion_succeeded now n j ≡ ok k → JobStep j k
  resumes :
      {k : IngestionJob} (planned finished : ℕ) (docs : List String) (c : Option Checkpoint)
      (p : ResumePlan)
      → resume planned finished j docs c ≡ ok (k, p)
      → JobStep j k

running-IsJob :
    (now : ℕ) (stage : String) (j k : IngestionJob)
    → mark_ingestion_running now stage j ≡ ok k
    → IsJob j
    → IsJob k
unfolding mark_ingestion_running
running-IsJob now stage j k h v = record {
  started = λ e. ground arith;
  complete = λ e. ground arith;
  open_running = λ e. ground (arith, v.open_queued);
  open_queued = λ e. ground arith;
}

succeeded-IsJob :
    (now : ℕ) (n : ℤ) (j k : IngestionJob)
    → mark_ingestion_succeeded now n j ≡ ok k
    → IsJob j
    → IsJob k
unfolding mark_ingestion_succeeded
succeeded-IsJob now n j k h v = record {
  started = λ e. ground arith;
  complete = λ e. ground arith;
  open_running = λ e. ground arith;
  open_queued = λ e. ground arith;
}

-- The shape of a resumed job: everything done, or running again.
abbrev Shape : ℕ → IngestionJob → Type 0
Shape finished k =
    ((k.status ≡ succeeded)
      × (k.completed_at ≡ some finished)
      × (k.percent_complete ≡ some full_percent))
    ⊎ ((k.status ≡ running) × (k.completed_at ≡ none) × (k.started_at ≢ none))

resumed_job-Shape :
    (finished : ℕ) (j : IngestionJob) (docs : List String) (c : Option Checkpoint) (p : ResumePlan)
    → Shape finished (resumed_job finished j c docs p)
unfolding resumed_job
resumed_job-Shape finished j docs c p = elim (Bool-cases (is_nil p.remaining_document_ids)) [
  | inl e ↦ rw e (inl (refl, refl, refl))
  | inr e ↦ rw e (inr (refl, refl, ground arith))
]

pair-ok {ℓ κ} :
    {A : Type ℓ} {B : Type κ} (f : B → A) (q p : B) (k : A)
    → ◌≡◌ {A = Result (A × B)} (ok (f q, q)) (ok (k, p))
    → k ≡ f p
pair-ok f q p k e = cc

-- A successful `resume` returns the job that its plan asks for.
resume-resumed_job :
    (planned finished : ℕ) (j k : IngestionJob) (docs : List String) (c : Option Checkpoint)
    (p : ResumePlan)
    → resume planned finished j docs c ≡ ok (k, p)
    → k ≡ resumed_job finished j c docs p
unfolding resume
resume-resumed_job planned finished j k [] c p h = absurd (ground arith)
resume-resumed_job planned finished j k (d ∷ docs) c p h =
    let (q, _, e) =
      bind-eq-ok (first_plan planned j c (d ∷ docs))
        (λ q. ok (resumed_job finished j c (d ∷ docs) q, q)) (k, p) h in
    pair-ok (resumed_job finished j c (d ∷ docs)) q p k e

resume-IsJob :
    (planned finished : ℕ) (j k : IngestionJob) (docs : List String) (c : Option Checkpoint)
    (p : ResumePlan)
    → resume planned finished j docs c ≡ ok (k, p)
    → IsJob k
resume-IsJob planned finished j k docs c p h =
    let shape : Shape finished k =
      rw (resume-resumed_job planned finished j k docs c p h)
        (resumed_job-Shape finished j docs c p) in
    record {
      started = λ e. ground arith;
      complete = λ e. ground arith;
      open_running = λ e. ground arith;
      open_queued = λ e. ground arith;
    }

-- Running, completing and resuming keep a job well formed, in whatever order they are done.
pub JobStep-IsJob : (j k : IngestionJob) → JobStep j k → IsJob j → IsJob k
JobStep-IsJob j k (runs now stage h) v = running-IsJob now stage j k h v
JobStep-IsJob j k (succeeds now n h) v = succeeded-IsJob now n j k h v
JobStep-IsJob j k (resumes planned finished docs c p h) v =
    resume-IsJob planned finished j k docs c p h

-- Without a checkpoint the status is not looked at: whatever state the job is in, cancelled and
-- succeeded included, it is set running again with every document to do.
pub resume_unchecked :
    (planned finished : ℕ) (j : IngestionJob) (d : String) (docs : List String)
    → (k : IngestionJob) × (p : ResumePlan) × (resume planned finished j (d ∷ docs) none
        ≡ ok (k, p))
      × (k.status ≡ running)
      × (p.remaining_document_ids ≡ d ∷ docs)
unfolding resume
resume_unchecked planned finished j d docs = (_, _, refl, refl, refl)

resume_open :
    (planned finished : ℕ) (j : IngestionJob) (c : Checkpoint) (docs : List String)
    → docs ≢ []
    → (j.status ≡ running) ⊎ (j.status ≡ failed)
    → let p = plan_of planned j c docs in
      resume planned finished j docs (some c) ≡ ok (resumed_job finished j (some c) docs p, p)
unfolding resume
resume_open planned finished j c [] some_doc open_job = absurd (some_doc refl)
resume_open planned finished j c (d ∷ docs) some_doc (inl e) = rw (e, plan_resume) refl
resume_open planned finished j c (d ∷ docs) some_doc (inr e) = rw (e, plan_resume) refl

-- What a resumed job says, by whether its plan leaves something to do.
resumed_job-result :
    (finished : ℕ) (j : IngestionJob) (c : Checkpoint) (docs : List String) (p : ResumePlan)
    → ((is_nil p.remaining_document_ids ≡ true) ↔ (c.processed_document_ids ≡ docs))
    → let k = resumed_job finished j (some c) docs p in
      (k.documents_processed ≡ length c.processed_document_ids)
      × ((k.status ≡ succeeded) ↔ (c.processed_document_ids ≡ docs))
unfolding resumed_job
resumed_job-result finished j c docs p same = elim (Bool-cases (is_nil p.remaining_document_ids)) [
  | inl e ↦ rw e (sym (ap length (same.0 e)), (λ s. same.0 e, λ s. refl))
  | inr e ↦ rw e (refl, (λ s. absurd (ground arith), λ s. absurd (ground (arith, same.1 s))))
]

-- A failed or running job resumes from a checkpoint of the same documents. It counts the documents
-- of the checkpoint as processed, and has succeeded exactly if these are all.
pub resume_checkpoint :
    (now planned finished : ℕ) (job j : IngestionJob) (processed docs : List String)
    (c : Checkpoint)
    → record_progress now job (collection processed) docs ≡ ok c
    → docs ≢ []
    → (j.status ≡ running) ⊎ (j.status ≡ failed)
    → (k : IngestionJob) × (p : ResumePlan) × (resume planned finished j docs (some c) ≡ ok (k, p))
      × (k.documents_processed ≡ length c.processed_document_ids)
      × ((k.status ≡ succeeded) ↔ (c.processed_document_ids ≡ docs))
resume_checkpoint now planned finished job j processed docs c h some_doc open_job =
    let p = plan_of planned j c docs in
    let ids = (recorded now job processed docs c h).1 in
    let rest : p.remaining_document_ids ≡ keep (λ s. not (contains processed s)) docs =
      rw ids (keep-not-contains (contains processed) docs) in
    let same : (is_nil p.remaining_document_ids ≡ true) ↔ (c.processed_document_ids ≡ docs) =
      rw (rest, ids) (keep_all_iff (contains processed) docs) in
    let (count, done) = resumed_job-result finished j c docs p same in
    (
      resumed_job finished j (some c) docs p,
      p,
      resume_open planned finished j c docs some_doc open_job,
      count,
      done,
    )
