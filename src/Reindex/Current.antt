-- ===== src/Reindex/Current.antt =====
-- A run that returns leaves a catalog that `_ensure_index_current` accepts.
use linux_rag_t.Prelude.{
  Perm, ◌++◌, ℕ, Result, ◌+◌, ◌≢◌, inl, inr, ok, sym, ap, map, ◌∙◌, contains, if◌then◌else◌, refl,
  none, some, true, false, [], arith, ◌∷◌, All, Bool, List, Option, String, eq_iff, is_nil,
  or_empty, ◌≡◌,
}
use linux_rag_t.Transport.Index.Current.{ensure_index_current_iff, IsCurrent, Matches}
use linux_rag_t.Reindex.Run.{finish, run, new_catalog}
use linux_rag_t.Reindex.State.{Event, Step, emit_progress, log_audit, Progress, Service}
use linux_rag_t.Reindex.Source.{reindex_all}
use linux_rag_t.Prelude.Sort.{sort_by-perm, All-sort_by, sort_by}
use linux_rag_t.Reindex.Ends.{fail_lem, run-attempt, started, started_empty}
use linux_rag_t.Reindex.Kept.{Leaves, active-lasting, keys-lasting, reindex_all-Leaves, lasting}
use linux_rag_t.Reindex.Built.{reindex_all-Built, Built, snapshot_of}
use mathlib.Core.Path.{subst}
use linux_rag_t.Reindex.Saves.{saves, attempt-Attempted}
use linux_rag_t.Transport.Index.{ensure_index_current, active_sources, checksum_of}
use linux_rag_t.Prelude.Filtered.{
  All-find_key, All-both, All-keep, Distinct-keep, contains-find_key,
}
use linux_rag_t.Ports.Ingestion.{
  IngestionJob, IngestionTrigger, SourceCatalog, SourceRecord, is_active,
}
use linux_rag_t.Prelude.Keyed.{keys, Distinct, Distinct-sort_by, find_key, find_key-sort_by}
use linux_rag_t.Catalog.Service.{alias_of, snapshot_alias}
use mathlib.Core.List.Perm

keys-snapshot_of :
    (l : List SourceRecord) → keys snapshot_alias (map snapshot_of l) ≡ keys alias_of l
keys-snapshot_of [] = refl
keys-snapshot_of (r ∷ l) = ap (λ k. r.alias ∷ k) (keys-snapshot_of l)

find_key_active : (s : String) (l : List SourceRecord) → Option String
find_key_active s l = elim (find_key alias_of s l) [
  | none ↦ none
  | some r ↦ if is_active r.status then some (or_empty r.checksum) else none
]

contains-active :
    (l : List SourceRecord) (s : String)
    → contains (keys alias_of l) s ≡ false
    → checksum_of (map snapshot_of (active_sources l)) s ≡ none
unfolding checksum_of
contains-active [] s h = refl
contains-active (r ∷ l) s h = ground (arith, contains-active l s)

-- The snapshots of the active records find their checksums.
checksum-snapshot_of :
    (l : List SourceRecord) (s : String)
    → Distinct (keys alias_of l)
    → checksum_of (map snapshot_of (active_sources l)) s ≡ find_key_active s l
unfolding checksum_of find_key_active
checksum-snapshot_of [] s d = refl
checksum-snapshot_of (r ∷ l) s d =
    ground (arith, checksum-snapshot_of l s d.1, d.0, eq_iff r.alias s, contains-active l r.alias)

-- The snapshots of a list of records agree with the list, in any order.
agree :
    (l : List SourceRecord)
    → Distinct (keys alias_of l)
    → All (λ r. is_active r.status ≡ true → r.checksum ≡ some (or_empty r.checksum)) l
    → All (λ r. is_active r.status ≡ true → Matches (map snapshot_of (active_sources l)) r) l
unfolding find_key_active
agree l d h =
    All-both l
      (λ r f g a.
        (or_empty r.checksum, g a, checksum-snapshot_of l r.alias d ∙ ground (arith, f, a)))
      (All-find_key alias_of l d) h

some_snapshots : (l : List SourceRecord) → is_nil l ≡ false → map snapshot_of l ≢ []
some_snapshots [] h e = absurd (ground arith)
some_snapshots (r ∷ l) h e = absurd (ground arith)

module _ (c : Service) (catalog : SourceCatalog) (p : Progress) where
  new_catalog-IsCurrent :
      Built p
      → Distinct (keys alias_of p.updated_sources)
      → is_nil (active_sources p.updated_sources) ≡ false
      → IsCurrent (new_catalog c catalog p)
  new_catalog-IsCurrent b d n = record {
    built = omega arith;
    some_snapshot = rw b.same (some_snapshots (active_sources p.updated_sources) n);
    one_each = rw (b.same, keys-snapshot_of) (Distinct-keep alias_of _ p.updated_sources d);
    aligned = λ a.
        rw (b.same, keys-snapshot_of)
          (contains-find_key alias_of _ p.updated_sources a d
            ∙ ap (λ o. elim o as (λ x. Bool) [ none ↦ false | some r ↦ is_active r.status ])
                (sym (find_key-sort_by alias_of a p.updated_sources))
            ∙ sym (
                contains-find_key alias_of _ (sort_by alias_of p.updated_sources) a
                  (Distinct-sort_by alias_of p.updated_sources d)));
    unchanged = rw b.same (
        All-keep _ _ (sort_by alias_of p.updated_sources)
          (All-sort_by alias_of _ p.updated_sources (agree p.updated_sources d b.checked)));
  }

start-Built :
    (c : Service) (quiet : (status : String) → c.append_audit status ≡ none)
    (trigger : IngestionTrigger) (job_id : String)
    → ((started c quiet trigger job_id).updated_sources ≡ [])
      × ((started c quiet trigger job_id).new_snapshots ≡ [])
unfolding log_audit emit_progress
start-Built c quiet trigger job_id = ground (arith, quiet "started")

-- A catalog as `run_current` promises it.
abbrev pub Renewed : List Event → SourceCatalog → Type 0
Renewed events catalog =
    (new : SourceCatalog) × (saves events ≡ new ∷ [])
    × (new.version ≡ catalog.version + 1)
    × Perm (map lasting new.sources) (map lasting catalog.sources)
    × (ensure_index_current new ≡ none)

renew :
    (c : Service) (sources : ℕ) (force : Bool) (catalog : SourceCatalog) (p t : Progress)
    (events : List Event)
    → p.updated_sources ≡ []
    → p.new_snapshots ≡ []
    → reindex_all c sources force catalog.sources p ≡ (none, t)
    → saves events ≡ new_catalog c catalog t ∷ []
    → Distinct (keys alias_of catalog.sources)
    → is_nil (active_sources catalog.sources) ≡ false
    → Renewed events catalog
renew c sources force catalog p t events u v l s d n =
    let built : Built t =
      subst (λ (x : Step). Built x.1) l
        (reindex_all-Built c sources force catalog.sources p
          (record { same = rw (u, v) refl; checked = rw u tt })) in
    let left : map lasting t.updated_sources
        ≡ map lasting p.updated_sources ++ map lasting catalog.sources =
      subst (Leaves (map lasting p.updated_sources ++ map lasting catalog.sources)) l
        (reindex_all-Leaves c sources force catalog.sources p) in
    let same : map lasting t.updated_sources ≡ map lasting catalog.sources = left ∙ rw u refl in
    let names : keys alias_of catalog.sources ≡ keys alias_of t.updated_sources =
      sym (keys-lasting catalog.sources)
      ∙ ap (keys alias_of) (sym same)
      ∙ keys-lasting t.updated_sources in
    let busy : is_nil (active_sources t.updated_sources) ≡ false =
      sym (active-lasting t.updated_sources)
      ∙ ap (λ l. is_nil (active_sources l)) same
      ∙ active-lasting catalog.sources
      ∙ n in
    (
      new_catalog c catalog t,
      s,
      refl,
      subst (Perm (map lasting (sort_by alias_of t.updated_sources))) same
          (Perm.map lasting (sort_by-perm alias_of t.updated_sources)),
      (ensure_index_current_iff (new_catalog c catalog t)).1
          (new_catalog-IsCurrent c catalog t built (subst Distinct names d) busy),
    )

-- With a caller that is told of the end and an audit log that takes every entry, a run that returns, on a
-- catalog that loads, with different aliases and
-- an active source saves one catalog, of the next version and with the same sources up to location,
-- size, time, checksum and order. `_ensure_index_current` accepts it.
pub run_current :
    (c : Service) (trigger : IngestionTrigger) (job_id : String) (force : Bool)
    (catalog : SourceCatalog) (job : IngestionJob)
    → c.on_complete ≡ true
    → ((status : String) → c.append_audit status ≡ none)
    → c.load ≡ ok catalog
    → Distinct (keys alias_of catalog.sources)
    → is_nil (active_sources catalog.sources) ≡ false
    → (run c trigger job_id force).0 ≡ ok job
    → (new : SourceCatalog) × (saves (run c trigger job_id force).1 ≡ new ∷ [])
      × (new.version ≡ catalog.version + 1)
      × Perm (map lasting new.sources) (map lasting catalog.sources)
      × (ensure_index_current new ≡ none)
run_current c trigger job_id force catalog job told quiet loaded d n done =
    let empty = started_empty c quiet trigger job_id in
    elim (attempt-Attempted c quiet told force (started c quiet trigger job_id) empty.0 empty.1) [
      | inl (e, q, k, tq, sq) ↦
          let ends =
            run-attempt c quiet trigger job_id force ∙ ap (finish c) k ∙ fail_lem c quiet e q in
          absurd (ground (arith, ap (λ (x : Result IngestionJob × List Event). x.0) ends))
      | inr (q, k, tq, (catalog1, t, h, l, s)) ↦
          let ends = run-attempt c quiet trigger job_id force ∙ ap (finish c) k in
          let same : catalog1 ≡ catalog = cc (sym h ∙ loaded) in
          let begun = start-Built c quiet trigger job_id in
          subst
            (λ x.
              Distinct (keys alias_of x.sources)
              → is_nil (active_sources x.sources) ≡ false
              → Renewed (run c trigger job_id force).1 x)
            same
            (renew c _ force catalog1 (started c quiet trigger job_id) t
              (run c trigger job_id force).1 begun.0 begun.1 l
              (ap (λ (x : Result IngestionJob × List Event). saves x.1) ends ∙ s))
            d n
    ]
