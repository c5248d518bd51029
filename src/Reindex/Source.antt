-- ===== src/Reindex/Source.antt =====
-- The loop of `ReindexService.run` over the sources of the catalog.
use linux_rag_t.Prelude.{
  ◌*◌, eqb, ◌++◌, ◌<>◌, ◌==◌, if◌then◌else◌, not, ◌+◌, ℕ, ◌||◌, none, some, ok, err, [], ◌∷◌, Bool,
  List, Result, String, or_empty, ◌>>=◌,
}
use linux_rag_t.Reindex.State.{
  chunked, Progress, Service, Step, add_documents, at_refresh, emit_progress, log_event, then_step,
}
use linux_rag_t.Files.{resolve_location}
use linux_rag_t.Ports.Ingestion.{IngestionJob, SourceRecord, full_percent, is_active}

module _ (c : Service) where
  -- `_alias_progress`
  unfoldable pub alias_progress : ℕ → String → List (ℕ × ℕ) → Progress → Progress
  unfolding emit_progress
  alias_progress sources alias [] p = p
  alias_progress sources alias ((done, total) ∷ calls) p = alias_progress sources alias calls (
      emit_progress c
        (record p.job {
          documents_processed = p.documents_processed + done;
          stage = some ("ingesting:" <> alias);
          percent_complete = some (
              if eqb sources 0 || eqb total 0
              then full_percent
              else record { num = p.processed_sources * total + done; den = total * sources });
        })
        p)

  unfoldable pub refreshed : String → String → SourceRecord → SourceRecord
  refreshed location checksum r = record r {
    location = location;
    size_bytes = c.files.size location;
    last_updated = c.clock (at_refresh r.alias);
    checksum = some checksum;
  }

  -- The end of an iteration: the record and its snapshot, then the progress of the whole run.
  unfoldable pub finish_source : ℕ → String → SourceRecord → String → Progress → Progress
  unfolding emit_progress
  finish_source sources stage r checksum p =
      let processed = p.processed_sources + 1 in
      let job : IngestionJob = record p.job {
        documents_processed = p.documents_processed;
        stage = some stage;
        percent_complete =
            some
              (if eqb sources 0 then full_percent else record { num = processed; den = sources });
      } in
      emit_progress c job (record p {
        job = job;
        processed_sources = processed;
        updated_sources = p.updated_sources ++ r ∷ [];
        new_snapshots = p.new_snapshots ++ record { alias = r.alias; checksum = checksum } ∷ [];
      })

  unfoldable pub build_chunks : ℕ → String → String → SourceRecord → Progress → Step
  unfolding alias_progress
  build_chunks sources checksum location r p =
      let p1 = log_event (chunked r.alias) p in
      let p2 =
        alias_progress sources r.alias (c.chunk_builder r.alias checksum location r.type).0 p1 in
      add_documents p2 (c.chunk_builder r.alias checksum location r.type).1

  abbrev pub is_changed : Bool → SourceRecord → String → Bool
  is_changed force r checksum = force || not (checksum == or_empty r.checksum)

  -- Where the source is and its checksum.
  abbrev pub locate : SourceRecord → Result (String × String)
  locate r = do
    location ← resolve_location c.files r.location
    checksum ← c.checksum_calculator location
    ok (location, checksum)

  abbrev pub refresh : ℕ → Bool → SourceRecord → Progress → Result (String × String) → Step
  refresh sources force r p (err e) = (some e, p)
  refresh sources force r p (ok (location, checksum)) =
      if is_changed force r checksum
      then then_step (build_chunks sources checksum location r p) (λ q. (
        none,
        finish_source sources ("ingesting:" <> r.alias) (refreshed location checksum r) checksum q,
      ))
      else (
        none,
        finish_source sources ("skipping:" <> r.alias) (refreshed location checksum r) checksum p,
      )

  unfoldable pub reindex_source : ℕ → Bool → SourceRecord → Progress → Step
  unfolding finish_source build_chunks refreshed
  reindex_source sources force r p = refresh sources force r p (locate r)

  unfoldable pub reindex_all : ℕ → Bool → List SourceRecord → Progress → Step
  unfolding reindex_source
  reindex_all sources force [] p = (none, p)
  reindex_all sources force (r ∷ l) p =
      let rest = reindex_all sources force l in
      if is_active r.status
      then then_step (reindex_source sources force r p) rest
      else rest (record p { updated_sources = p.updated_sources ++ r ∷ [] })
