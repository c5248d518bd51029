-- ===== src/Reindex/Built.antt =====
-- The snapshots that a run takes, beside the records.
use linux_rag_t.Reindex.State.{
  chunked, Step, add_documents, log_event, then_step, Progress, Service, emit_progress,
}
use linux_rag_t.Reindex.Source.{
  locate, refresh, refreshed, build_chunks, finish_source, is_changed, reindex_all, reindex_source,
  alias_progress,
}
use linux_rag_t.Prelude.{
  sym, none, ok, err, All-append, Bool, Result, if◌then◌else◌, ◌++◌, map, ℕ, refl, some, inl, inr,
  true, [], arith, ◌∷◌, All, Bool-cases, List, String, or_empty, ◌≡◌,
}
use mathlib.Core.List.{append-nil}
use linux_rag_t.Ports.Ingestion.{IngestionJob, SourceRecord, SourceSnapshot, is_active}
use linux_rag_t.Transport.Index.{active_sources}

abbrev pub snapshot_of : SourceRecord → SourceSnapshot
snapshot_of r = record { alias = r.alias; checksum = or_empty r.checksum }

-- The snapshots are those of the active records so far, and these have checksums.
pub record Built (p : Progress) : Type 0 where
  pub same : p.new_snapshots ≡ map snapshot_of (active_sources p.updated_sources)
  pub checked :
      All
        (λ r. is_active r.status ≡ true → r.checksum ≡ some (or_empty r.checksum))
        p.updated_sources

active_append :
    (l : List SourceRecord) (r : SourceRecord)
    → map snapshot_of (active_sources (l ++ r ∷ []))
      ≡ map snapshot_of (active_sources l)
        ++ (if is_active r.status then snapshot_of r ∷ [] else [])
active_append [] r = ground arith
active_append (x ∷ l) r = ground (arith, active_append l r)

then_step-Built :
    (s : Step) (g : Progress → Step)
    → Built s.1
    → ((q : Progress) → Built q → Built (g q).1)
    → Built (then_step s g).1
then_step-Built (none, q) g b k = k q b
then_step-Built (some e, q) g b k = b

module _ (c : Service) where
  emit_progress-Built : (j : IngestionJob) (p : Progress) → Built p → Built (emit_progress c j p)
  unfolding emit_progress
  emit_progress-Built j p b = elim (Bool-cases c.on_progress) [
    | inl e ↦ rw e (record { same = b.same; checked = b.checked })
    | inr e ↦ rw e b
  ]

  alias_progress-Built :
      (sources : ℕ) (alias : String) (calls : List (ℕ × ℕ)) (p : Progress)
      → Built p
      → Built (alias_progress c sources alias calls p)
  unfolding alias_progress
  alias_progress-Built sources alias [] p b = b
  alias_progress-Built sources alias ((done, total) ∷ calls) p b =
      alias_progress-Built sources alias calls _ (emit_progress-Built _ p b)

  add_documents-Built : (p : Progress) (n : Result ℕ) → Built p → Built (add_documents p n).1
  add_documents-Built p (ok n) b = record { same = b.same; checked = b.checked }
  add_documents-Built p (err e) b = b

  build_chunks-Built :
      (sources : ℕ) (checksum location : String) (r : SourceRecord) (p : Progress)
      → Built p
      → Built (build_chunks c sources checksum location r p).1
  unfolding build_chunks
  build_chunks-Built sources checksum location r p b =
      add_documents-Built _ (c.chunk_builder r.alias checksum location r.type).1 (
        alias_progress-Built sources r.alias (c.chunk_builder r.alias checksum location r.type).0
          (log_event (chunked r.alias) p) (record { same = b.same; checked = b.checked }))

  finish_source-Built :
      (sources : ℕ) (stage location : String) (r : SourceRecord) (checksum : String) (p : Progress)
      → is_active r.status ≡ true
      → Built p
      → Built (finish_source c sources stage (refreshed c location checksum r) checksum p)
  unfolding finish_source refreshed
  finish_source-Built sources stage location r checksum p a b = emit_progress-Built _ _ (record {
    same = rw (active_append, a, b.same) refl;
    checked = All-append _ p.updated_sources _ b.checked ((λ e. refl), tt);
  })

  refresh-Built :
      (sources : ℕ) (force : Bool) (r : SourceRecord) (p : Progress)
      (found : Result (String × String))
      → is_active r.status ≡ true
      → Built p
      → Built (refresh c sources force r p found).1
  refresh-Built sources force r p (err e) a b = b
  refresh-Built sources force r p (ok (location, checksum)) a b =
      elim (Bool-cases (is_changed c force r checksum)) [
        | inr e ↦ rw e (finish_source-Built _ _ _ _ _ p a b)
        | inl e ↦ rw e (
            then_step-Built (build_chunks c sources checksum location r p) _
              (build_chunks-Built sources checksum location r p b)
              (λ q d. finish_source-Built _ _ _ _ _ q a d))
      ]

  reindex_source-Built :
      (sources : ℕ) (force : Bool) (r : SourceRecord) (p : Progress)
      → is_active r.status ≡ true
      → Built p
      → Built (reindex_source c sources force r p).1
  unfolding reindex_source
  reindex_source-Built sources force r p = refresh-Built sources force r p (locate c r)

  pub reindex_all-Built :
      (sources : ℕ) (force : Bool) (l : List SourceRecord) (p : Progress)
      → Built p
      → Built (reindex_all c sources force l p).1
  unfolding reindex_all
  reindex_all-Built sources force [] p b = b
  reindex_all-Built sources force (r ∷ l) p b = elim (Bool-cases (is_active r.status)) [
    | inl a ↦ rw a (
        then_step-Built _ _ (reindex_source-Built sources force r p a b)
          (reindex_all-Built sources force l))
    | inr a ↦ rw a (
        reindex_all-Built sources force l _ (record {
          same = rw (active_append, a, b.same) (sym (append-nil _));
          checked = All-append _ p.updated_sources _ b.checked ((λ e. ground arith), tt);
        }))
  ]
