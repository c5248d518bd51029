-- ===== src/Catalog/Quarantine.antt =====
-- `SourceQuarantineManager` of backend/src/adapters/storage/quarantine.py.
pub mod Stale
use linux_rag_t.Prelude.{
  Option, truthy, ◌+◌, if◌then◌else◌, ◌<>◌, ℕ, none, some, ok, err, Result, String, or_empty,
  value_error, ◌≡◌,
}
use linux_rag_t.Ports.Ingestion.{SourceCatalog, SourceRecord, quarantined}
use linux_rag_t.Catalog.Service.{find_source, put_record}

pub record QuarantineEntry : Type 0 where
  pub timestamp : ℕ
  pub action : String
  pub target : String
  pub status : String
  pub message : String

abbrev pub quarantine_record : ℕ → String → SourceRecord → SourceRecord
quarantine_record now reason r = record r {
  status = quarantined;
  last_updated = now;
  notes = some (if truthy r.notes then or_empty r.notes <> "\n" <> reason else reason);
}

abbrev pub quarantine_entry : ℕ → String → String → QuarantineEntry
quarantine_entry now alias reason = record {
  timestamp = now;
  action = "source_quarantine";
  target = alias;
  status = "failure";
  message = reason;
}

abbrev quarantine_found :
    ℕ
    → String
    → String
    → SourceCatalog
    → Option SourceRecord
    → Result (SourceCatalog × QuarantineEntry)
quarantine_found now alias reason catalog none =
    err (value_error ("unknown source alias '" <> alias <> "'"))
quarantine_found now alias reason catalog (some r) = ok (
  record catalog {
    version = catalog.version + 1;
    updated_at = now;
    sources = put_record alias (quarantine_record now reason r) catalog.sources;
  },
  quarantine_entry now alias reason,
)

-- The catalog that is saved and the audit entry that is appended after it.
unfoldable pub quarantine :
    ℕ → String → String → SourceCatalog → Result (SourceCatalog × QuarantineEntry)
quarantine now alias reason catalog =
    quarantine_found now alias reason catalog (find_source alias catalog.sources)
