-- ===== src/Tests/Quarantine.antt =====
-- The quarantine of a source that has a snapshot.
use linux_rag_t.Prelude.{
  ◌≢◌, contains, ◌==◌, if◌then◌else◌, refl, none, some, ok, true, [], ◌∷◌, String, ◌≡◌,
}
use linux_rag_t.Prelude.Keyed.{keys, Distinct}
use linux_rag_t.Ports.Ingestion.{quarantined, man, SourceCatalog, SourceRecord, active}
use linux_rag_t.Catalog.Quarantine.{quarantine}
use linux_rag_t.Transport.Index.{ensure_index_current}
use linux_rag_t.Catalog.Quarantine.Stale.{quarantine_stale}
use linux_rag_t.Catalog.Service.{alias_of, find_source, snapshot_alias}

abbrev pages : SourceRecord
pages = record {
  alias = "man-pages";
  type = man;
  location = "/man";
  language = "en";
  size_bytes = 3;
  last_updated = 1;
  status = active;
  checksum = some "x";
  notes = none;
}

abbrev catalog : SourceCatalog
catalog = record {
  version = 3;
  updated_at = 1;
  sources = pages ∷ [];
  snapshots = record { alias = "man-pages"; checksum = "x" } ∷ [];
}

quarantine_stale_example :
    (new : SourceCatalog) × (quarantine 9 "man-pages" "bad" catalog
      ≡ ok (
        new,
        record {
          timestamp = 9;
          action = "source_quarantine";
          target = "man-pages";
          status = "failure";
          message = "bad";
        },
      ))
    × (new.updated_at ≡ 9)
    × (new.version ≡ 4)
    × (new.snapshots ≡ catalog.snapshots)
    × ((a : String)
        → find_source a new.sources ≡ (
            if "man-pages" == a
            then some (record pages { status = quarantined; last_updated = 9; notes = some "bad" })
            else find_source a catalog.sources))
    × (Distinct (keys alias_of new.sources)
        → contains (keys snapshot_alias catalog.snapshots) "man-pages" ≡ true
        → ensure_index_current new ≢ none)
quarantine_stale_example = quarantine_stale 9 "man-pages" "bad" catalog pages refl
