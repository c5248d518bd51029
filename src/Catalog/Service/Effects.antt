-- ===== src/Catalog/Service/Effects.antt =====
-- What a mutation reports, and what it leaves in the version and in the audit log.
use linux_rag_t.Storage.Audit.Entries.{IsAppended}
use linux_rag_t.Prelude.{
  chars, strip, lower, ◌+◌, truthy, ◌<>◌, if◌then◌else◌, ℕ, ◌⊎◌, none, Option, some, ok, err, Error,
  String, or_empty, ◌≡◌,
}
use linux_rag_t.Catalog.Service.{
  remove, update, create, Collaborators, Command, Outcome, Store, update_details,
}
use linux_rag_t.Storage.Audit.Code.{IsLanguageCode}
use linux_rag_t.Storage.Audit.{Log, Logger, mutation_entry}
use linux_rag_t.Ports.Ingestion.{SourceRecord}

-- What a command hands to the audit logger.
pub record Entry : Type 0 where
  pub action : String
  pub alias : String
  pub language : String
  pub details : Option String

-- The audit entry of a command that wrote `r`.
unfoldable pub entry_of : Command → SourceRecord → Entry
entry_of (create request) r = record {
  action = "source_add";
  alias = r.alias;
  language = r.language;
  details = some ("location=" <> r.location);
}
entry_of (update alias request) r = record {
  action = "source_update";
  alias = alias;
  language = r.language;
  details = update_details request;
}
entry_of (remove alias reason) r = record {
  action = "source_remove";
  alias = alias;
  language = r.language;
  details = some (if truthy reason then "reason=" <> or_empty reason else "reason=unspecified");
}

-- What becomes of an entry. Without a logger nothing is written. A logger writes the line of the
-- entry or finds no file that it can write, where the language of the entry is a language code, and
-- raises otherwise, with no line written.
abbrev pub IsLogged : Option Logger → Entry → Log → Option Error × Log → Type 0
IsLogged none entry log o = o ≡ (none, log)
IsLogged (some logger) entry log o =
    let code = lower (strip entry.language) in
    (IsLanguageCode (chars code)
      × IsAppended logger
          (mutation_entry logger entry.action entry.alias "success" code none entry.details) log o)
    ⊎ (¬ IsLanguageCode (chars code) × ((e : Error) × (o ≡ (some e, log))))

-- Either the entry is handed to the logger, and the command returns the record or raises what the
-- logger raises, or the chunk builder raised after the save, and the log is as before.
abbrev pub Reported : Collaborators → SourceRecord → Entry → Store → Outcome → Type 0
Reported c r entry s out =
    ((e : Option Error) × IsLogged c.audit_logger entry s.audit (e, out.1.audit)
      × (((e ≡ none) × (out.0 ≡ ok r)) ⊎ ((x : Error) × (e ≡ some x) × (out.0 ≡ err x))))
    ⊎ ((x : Error) × (c.chunk_builder r.alias (or_empty r.checksum) r.location r.type ≡ err x)
        × (out.0 ≡ err x)
        × (out.1.audit ≡ s.audit))

pub record IsSaved (now : ℕ) (s t : Store) : Type 0 where
  pub version : t.catalog.version ≡ s.catalog.version + 1
  pub updated_at : t.catalog.updated_at ≡ now
