-- ===== src/Reindex/Closes.antt =====
-- The order of what a run tells its caller: progress of a running job first, its end once, and then
-- nothing more.
use linux_rag_t.Reindex.Source.{
  refreshed, locate, refresh, alias_progress, build_chunks, finish_source, is_changed, reindex_all,
  reindex_source,
}
use linux_rag_t.Prelude.{
  ◌<>◌, ◌++◌, ℕ, none, some, inl, inr, ok, err, [], ◌∷◌, All, All-append, Bool, Bool-cases, Error,
  List, Option, Result, String, ◌≡◌,
}
use linux_rag_t.Reindex.State.{
  chunked, completed, progress, wrote, Event, Progress, Service, Step, add_documents, emit_progress,
  log_event, then_step,
}
use linux_rag_t.Ports.Ingestion.{running, IngestionJob, SourceRecord, is_active}

-- No end yet, and every job told of is running.
abbrev pub IsOpen : Event → Type 0
IsOpen (progress j) = j.status ≡ running
IsOpen (completed j) = ⊥
IsOpen _ = Unit

-- Nothing that the caller is told of.
abbrev pub IsSilent : Event → Type 0
IsSilent (progress j) = ⊥
IsSilent (completed j) = ⊥
IsSilent _ = Unit

pub record Open (p : Progress) : Type 0 where
  pub job : p.job.status ≡ running
  pub told : All IsOpen p.events

pub log_event-Open : (e : Event) (p : Progress) → IsOpen e → Open p → Open (log_event e p)
log_event-Open e p h o = record {
  job = o.job;
  told = All-append IsOpen p.events (e ∷ []) o.told (h, tt);
}

pub wrote-Open :
    (x : Option Error) (e : Event) (p : Progress) → IsOpen e → Open p → Open (wrote x e p).1
wrote-Open none e p h o = log_event-Open e p h o
wrote-Open (some x) e p h o = o

pub then_step-Open :
    (s : Step) (g : Progress → Step)
    → Open s.1
    → ((q : Progress) → Open q → Open (g q).1)
    → Open (then_step s g).1
then_step-Open (none, q) g o h = h q o
then_step-Open (some e, q) g o h = o

add_documents-Open : (n : Result ℕ) (p : Progress) → Open p → Open (add_documents p n).1
add_documents-Open (ok n) p o = record { job = o.job; told = o.told }
add_documents-Open (err e) p o = o

module _ (c : Service) where
  pub emit_progress-Open :
      (j : IngestionJob) (p : Progress) → j.status ≡ running → Open p → Open (emit_progress c j p)
  unfolding emit_progress
  emit_progress-Open j p h o = elim (Bool-cases c.on_progress) [
    | inl e ↦ rw e (log_event-Open (progress j) p h o)
    | inr e ↦ rw e o
  ]

  alias_progress-Open :
      (sources : ℕ) (alias : String) (calls : List (ℕ × ℕ)) (p : Progress)
      → Open p
      → Open (alias_progress c sources alias calls p)
  unfolding alias_progress
  alias_progress-Open sources alias [] p o = o
  alias_progress-Open sources alias ((done, total) ∷ calls) p o =
      alias_progress-Open sources alias calls _ (emit_progress-Open _ p o.job o)

  build_chunks-Open :
      (sources : ℕ) (checksum location : String) (r : SourceRecord) (p : Progress)
      → Open p
      → Open (build_chunks c sources checksum location r p).1
  unfolding build_chunks
  build_chunks-Open sources checksum location r p o =
      add_documents-Open (c.chunk_builder r.alias checksum location r.type).1 _ (
        alias_progress-Open sources r.alias (c.chunk_builder r.alias checksum location r.type).0
          (log_event (chunked r.alias) p) (log_event-Open (chunked r.alias) p tt o))

  finish_source-Open :
      (sources : ℕ) (stage : String) (r : SourceRecord) (checksum : String) (p : Progress)
      → Open p
      → Open (finish_source c sources stage r checksum p)
  unfolding finish_source
  finish_source-Open sources stage r checksum p o =
      emit_progress-Open _ _ o.job (record { job = o.job; told = o.told })

  refresh-Open :
      (sources : ℕ) (force : Bool) (r : SourceRecord) (p : Progress)
      (located : Result (String × String))
      → Open p
      → Open (refresh c sources force r p located).1
  refresh-Open sources force r p (err e) o = o
  refresh-Open sources force r p (ok (location, checksum)) o =
      elim (Bool-cases (is_changed c force r checksum)) [
        | inl e ↦ rw e (
            then_step-Open (build_chunks c sources checksum location r p) _
              (build_chunks-Open sources checksum location r p o)
              (λ q oq.
                finish_source-Open sources ("ingesting:" <> r.alias)
                  (refreshed c location checksum r) checksum q oq))
        | inr e ↦ rw e (
            finish_source-Open sources ("skipping:" <> r.alias) (refreshed c location checksum r)
              checksum p o)
      ]

  reindex_source-Open :
      (sources : ℕ) (force : Bool) (r : SourceRecord) (p : Progress)
      → Open p
      → Open (reindex_source c sources force r p).1
  unfolding reindex_source
  reindex_source-Open sources force r p o = refresh-Open sources force r p (locate c r) o

  pub reindex_all-Open :
      (sources : ℕ) (force : Bool) (l : List SourceRecord) (p : Progress)
      → Open p
      → Open (reindex_all c sources force l p).1
  unfolding reindex_all
  reindex_all-Open sources force [] p o = o
  reindex_all-Open sources force (r ∷ l) p o = elim (Bool-cases (is_active r.status)) [
    | inl e ↦ rw e (
        then_step-Open (reindex_source c sources force r p) (reindex_all c sources force l)
          (reindex_source-Open sources force r p o) (reindex_all-Open sources force l))
    | inr e ↦ rw e (
        reindex_all-Open sources force l
          (record p { updated_sources = p.updated_sources ++ r ∷ [] })
          (record { job = o.job; told = o.told }))
  ]
