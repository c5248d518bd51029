-- ===== src/Reindex/Bounds.antt =====
-- The percentages that the loop of a run reports.
use linux_rag_t.Prelude.{
  ◌||◌, eqb, if◌then◌else◌, length, ok, err, true, false, Bool, Result, ◌*◌, ◌+◌, ℕ, ◌≤◌, none,
  some, inl, inr, suc, [], arith, ◌∷◌, All, All-append, Bool-cases, Error, List, Option, String,
}
use linux_rag_t.Reindex.Source.{
  locate, refresh, build_chunks, finish_source, is_changed, reindex_all, reindex_source,
  alias_progress,
}
use linux_rag_t.Reindex.State.{
  add_documents, wrote, Event, Progress, Service, Step, emit_completion, emit_progress, log_event,
  then_step, saved, indexed, chunked, progress, completed, audited,
}
use linux_rag_t.Ports.Ingestion.{
  SourceRecord, full_percent, is_active, IngestionJob, Percent, SourceType,
}
use linux_rag_t.Transport.Index.{active_sources}
use native.Mathlib.Nat.{mul-add, mul-one, mul_comm, mul-le-mul_left}

-- A percentage of at most 100.
abbrev pub AtMost100 : Option Percent → Type 0
AtMost100 none = Unit
AtMost100 (some p) = p.num ≤ p.den

abbrev pub InBounds : Event → Type 0
InBounds (progress j) = AtMost100 j.percent_complete
InBounds (completed j) = AtMost100 j.percent_complete
InBounds (saved _) = Unit
InBounds (indexed _) = Unit
InBounds (chunked _) = Unit
InBounds (audited _ _) = Unit

-- With `k` active sources still to come, this one included.
pub record Fair (sources k : ℕ) (p : Progress) : Type 0 where
  pub told : All InBounds p.events
  pub job : AtMost100 p.job.percent_complete
  pub room : p.processed_sources + k ≤ sources

pub weaken : (sources k : ℕ) (p : Progress) → Fair sources k p → Fair sources 0 p
weaken sources k p f = record { told = f.told; job = f.job; room = (let r = f.room in omega arith) }

log_event-Fair :
    (sources k : ℕ) (e : Event) (p : Progress)
    → InBounds e
    → Fair sources k p
    → Fair sources k (log_event e p)
log_event-Fair sources k e p b f = record {
  told = All-append InBounds p.events (e ∷ []) f.told (b, tt);
  job = f.job;
  room = f.room;
}

-- What a step leaves that expects `k` more sources, and what it leaves where it raises.
abbrev pub After : ℕ → ℕ → Step → Type 0
After sources k (none, p) = Fair sources k p
After sources k (some e, p) = Fair sources 0 p

pub then_step-After :
    (sources k m : ℕ) (s : Step) (g : Progress → Step)
    → After sources k s
    → ((q : Progress) → Fair sources k q → After sources m (g q))
    → After sources m (then_step s g)
then_step-After sources k m (none, q) g f h = h q f
then_step-After sources k m (some e, q) g f h = f

pub wrote-After :
    (sources k : ℕ) (o : Option Error) (e : Event) (p : Progress)
    → InBounds e
    → Fair sources k p
    → After sources k (wrote o e p)
wrote-After sources k none e p b f = log_event-Fair sources k e p b f
wrote-After sources k (some x) e p b f = weaken sources k p f

-- The fraction within a source is at most 1.
fraction_le :
    (processed k sources done total : ℕ)
    → processed + suc k ≤ sources
    → done ≤ total
    → processed * total + done ≤ total * sources
fraction_le processed k sources done total h d = omega (
  arith,
  mul-le-mul_left {m = processed + 1} {n = sources} total (omega arith),
  mul-add total processed 1,
  mul-one total,
  mul_comm processed total,
)

full_or :
    (b : Bool) (q : Percent) → q.num ≤ q.den → AtMost100 (some (if b then full_percent else q))
full_or true q h = omega arith
full_or false q h = h

-- The chunk builder tells of at most as many documents as there are.
abbrev pub Counts : Service → Type 0
Counts c =
    (alias checksum location : String) (kind : SourceType)
    → All (λ (x : ℕ × ℕ). x.0 ≤ x.1) (c.chunk_builder alias checksum location kind).0

module _ (c : Service) (sources : ℕ) where
  pub emit_progress-Fair :
      (k : ℕ) (j : IngestionJob) (p : Progress)
      → AtMost100 j.percent_complete
      → Fair sources k p
      → Fair sources k (emit_progress c j p)
  unfolding emit_progress
  emit_progress-Fair k j p b f = elim (Bool-cases c.on_progress) [
    | inl e ↦ rw e (log_event-Fair sources k (progress j) p b f)
    | inr e ↦ rw e f
  ]

  pub emit_completion-Fair :
      (j : IngestionJob) (p : Progress)
      → AtMost100 j.percent_complete
      → Fair sources 0 p
      → Fair sources 0 (emit_completion c j p)
  unfolding emit_completion
  emit_completion-Fair j p b f = elim (Bool-cases c.on_complete) [
    | inl e ↦ rw e (log_event-Fair sources 0 (completed j) p b f)
    | inr e ↦ rw e f
  ]

  alias_progress-Fair :
      (k : ℕ) (alias : String) (calls : List (ℕ × ℕ)) (p : Progress)
      → All (λ (x : ℕ × ℕ). x.0 ≤ x.1) calls
      → Fair sources (suc k) p
      → Fair sources (suc k) (alias_progress c sources alias calls p)
  unfolding alias_progress
  alias_progress-Fair k alias [] p a f = f
  alias_progress-Fair k alias ((done, total) ∷ calls) p a f =
      alias_progress-Fair k alias calls _ a.1 (
        emit_progress-Fair (suc k) _ p
          (full_or (eqb sources 0 || eqb total 0) _
            (fraction_le p.processed_sources k sources done total f.room a.0))
          f)

  add_documents-After :
      (k : ℕ) (p : Progress) (n : Result ℕ) → Fair sources k p → After sources k (add_documents p n)
  add_documents-After k p (ok n) f = record { told = f.told; job = f.job; room = f.room }
  add_documents-After k p (err e) f = weaken sources k p f

  finish_source-Fair :
      (k : ℕ) (stage : String) (r : SourceRecord) (checksum : String) (p : Progress)
      → Fair sources (suc k) p
      → Fair sources k (finish_source c sources stage r checksum p)
  unfolding finish_source
  finish_source-Fair k stage r checksum p f =
      let room = f.room in
      let most =
        full_or (eqb sources 0) (record { num = p.processed_sources + 1; den = sources })
          (omega arith) in
      emit_progress-Fair k _ _ most (record { told = f.told; job = most; room = omega arith })

  module _ (counts : Counts c) where
    build_chunks-After :
        (k : ℕ) (checksum location : String) (r : SourceRecord) (p : Progress)
        → Fair sources (suc k) p
        → After sources (suc k) (build_chunks c sources checksum location r p)
    unfolding build_chunks
    build_chunks-After k checksum location r p f =
        add_documents-After (suc k) _ (c.chunk_builder r.alias checksum location r.type).1 (
          alias_progress-Fair k r.alias (c.chunk_builder r.alias checksum location r.type).0 _
            (counts r.alias checksum location r.type)
            (log_event-Fair sources (suc k) (chunked r.alias) p tt f))

    refresh-After :
        (k : ℕ) (force : Bool) (r : SourceRecord) (p : Progress) (found : Result (String × String))
        → Fair sources (suc k) p
        → After sources k (refresh c sources force r p found)
    refresh-After k force r p (err e) f = weaken sources (suc k) p f
    refresh-After k force r p (ok (location, checksum)) f =
        elim (Bool-cases (is_changed c force r checksum)) [
          | inr e ↦ rw e (finish_source-Fair k _ _ _ p f)
          | inl e ↦ rw e (
              then_step-After sources (suc k) k (build_chunks c sources checksum location r p) _
                (build_chunks-After k checksum location r p f)
                (λ q g. finish_source-Fair k _ _ _ q g))
        ]

    reindex_source-After :
        (k : ℕ) (force : Bool) (r : SourceRecord) (p : Progress)
        → Fair sources (suc k) p
        → After sources k (reindex_source c sources force r p)
    unfolding reindex_source
    reindex_source-After k force r p = refresh-After k force r p (locate c r)

    pub reindex_all-After :
        (force : Bool) (l : List SourceRecord) (p : Progress)
        → Fair sources (length (active_sources l)) p
        → After sources 0 (reindex_all c sources force l p)
    unfolding reindex_all
    reindex_all-After force [] p f = f
    reindex_all-After force (r ∷ l) p f = elim (Bool-cases (is_active r.status)) [
      | inl e ↦ rw e (
          then_step-After sources (length (active_sources l)) 0 (reindex_source c sources force r p)
            (reindex_all c sources force l)
            (reindex_source-After (length (active_sources l)) force r p (rw e at f))
            (reindex_all-After force l))
      | inr e ↦ rw e (
          reindex_all-After force l _
            (let g = rw e at f in record { told = g.told; job = g.job; room = g.room }))
    ]
