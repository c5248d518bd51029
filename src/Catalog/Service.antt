-- ===== src/Catalog/Service.antt =====
-- `SourceCatalogService`: the three mutations over the persisted catalog. Each returns its result
-- or error beside the store that it leaves, since what was saved before an error stays saved.
pub mod Saved
pub mod View
pub mod Invariant
pub mod Effects
use linux_rag_t.Storage.Audit.{Log, Logger, log_mutation as audit_mutation}
use linux_rag_t.Prelude.{
  Error, ℕ, ◌+◌, String, ◌<>◌, ◌==◌, Bool, true, false, List, [], ◌∷◌, ◌++◌, map, Option, none,
  some, Result, ok, err, value_error, ◌>>=◌, if◌then◌else◌, or_default, or_text, truthy, or_empty,
  lower, strip, keep, find,
}
use linux_rag_t.Prelude.Sort.{sort_by}
use linux_rag_t.Ports.Ingestion.{
  SourceType, pending_validation, quarantined, SourceRecord, SourceSnapshot, SourceCatalog,
  SourceCreateRequest, SourceUpdateRequest,
}
use linux_rag_t.Files.{Files, resolve_location}
use linux_rag_t.Catalog.Alias.{generate_alias}

-- What the service is composed of. The checksum calculator and the chunk builder may raise; of the
-- chunks only their number is used, in a debug line.
pub record Collaborators : Type 0 where
  pub files : Files
  pub checksum_calculator : String → Result String
  pub chunk_builder : String → String → String → SourceType → Result ℕ
  pub audit_logger : Option Logger

-- A call of the chunk builder.
pub record ChunkPlan : Type 0 where
  pub alias : String
  pub checksum : String
  pub location : String

pub record Store : Type 0 where
  pub catalog : SourceCatalog
  pub audit : Log
  pub plans : List ChunkPlan

abbrev pub Outcome : Type 0
Outcome = Result SourceRecord × Store

unfoldable pub default_language : Option String → String
default_language language =
    let candidate = lower (strip (or_default language "en")) in or_text candidate "en"

abbrev pub alias_of : SourceRecord → String
alias_of r = r.alias

abbrev pub snapshot_alias : SourceSnapshot → String
snapshot_alias s = s.alias

abbrev pub find_source : String → List SourceRecord → Option SourceRecord
find_source alias = find (λ r. r.alias == alias)

-- The record that takes the place of all records with its alias.
abbrev pub put_record : String → SourceRecord → List SourceRecord → List SourceRecord
put_record alias updated = map (λ r. if r.alias == alias then updated else r)

abbrev pub with_catalog : Store → ℕ → List SourceRecord → List SourceSnapshot → Store
with_catalog s now sources snapshots = record s {
  catalog = record {
    version = s.catalog.version + 1;
    updated_at = now;
    sources = sort_by alias_of sources;
    snapshots = snapshots;
  };
}

abbrev pub given : {A : Type 0} → Option A → A → A
given none old = old
given (some new) old = new

abbrev if_given : {A : Type 0} → Option A → String → List String
if_given none name = []
if_given (some _) name = name ∷ []

join : List String → String
join [] = ""
join (x ∷ []) = x
join (x ∷ y ∷ rest) = x <> "," <> join (y ∷ rest)

unfoldable pub update_details : SourceUpdateRequest → Option String
unfolding join
update_details request =
    let fields =
      (if truthy request.location then "location" ∷ [] else [])
      ++ if_given request.language "language"
      ++ if_given request.status "status"
      ++ if_given request.notes "notes" in
    elim fields [ [] ↦ none | x ∷ xs ↦ some ("updated_fields=" <> join (x ∷ xs)) ]

-- Each snapshot of the alias gets the checksum; without one, a snapshot is appended.
unfoldable pub put_snapshot : String → String → List SourceSnapshot → List SourceSnapshot
put_snapshot alias checksum snapshots =
    let fresh : SourceSnapshot = record { alias = alias; checksum = checksum } in
    let replaced = map (λ s. if s.alias == alias then fresh else s) snapshots in
    elim (find (λ s. s.alias == alias) snapshots) [
      | none ↦ replaced ++ fresh ∷ []
      | some _ ↦ replaced
    ]

unfoldable pub register : ℕ → SourceRecord → Store → Store
register now r s =
    with_catalog s now (s.catalog.sources ++ r ∷ [])
      (s.catalog.snapshots ++ record { alias = r.alias; checksum = or_empty r.checksum } ∷ [])

unfoldable pub save_update : ℕ → String → SourceRecord → SourceRecord → Store → Store
unfolding put_snapshot
save_update now alias current updated s =
    with_catalog s now (put_record alias updated s.catalog.sources) (
      put_snapshot alias (or_default updated.checksum (or_default current.checksum ""))
        s.catalog.snapshots)

unfoldable pub save_removal : ℕ → String → SourceRecord → Store → Store
save_removal now alias updated s =
    with_catalog s now (put_record alias updated s.catalog.sources)
      (keep (λ t. if t.alias == alias then false else true) s.catalog.snapshots)

unfoldable pub withdrawn : ℕ → Option String → SourceRecord → SourceRecord
withdrawn now reason current =
    let note = or_default reason "Removed via ragadmin" in
    record current {
      last_updated = now;
      status = quarantined;
      notes = some (if truthy current.notes then or_empty current.notes <> "\n" <> note else note);
    }

-- The result of a mutation, once its audit entry was written or the logger raised.
abbrev pub result_of : SourceRecord → Option Error → Result SourceRecord
result_of r none = ok r
result_of r (some e) = err e

abbrev pub finished : SourceRecord → Option Error × Store → Outcome
finished r o = (result_of r o.0, o.1)

unfoldable pub after_plan :
    SourceRecord → (Store → Option Error × Store) → Result ℕ × Store → Outcome
after_plan r log (ok n, s) = finished r (log s)
after_plan r log (err e, s) = (err e, s)

module _ (c : Collaborators) where
  abbrev pub audit_step : String → String → String → Option String → Log → Option Error × Log
  audit_step action alias language details log = elim c.audit_logger [
    | none ↦ (none, log)
    | some logger ↦ audit_mutation logger action alias "success" language none details log
  ]

  -- `_log_mutation`, after the save. The logger may raise.
  unfoldable pub log_mutation :
      String → String → String → Option String → Store → Option Error × Store
  unfolding audit_mutation
  log_mutation action alias language details s =
      let o = audit_step action alias language details s.audit in (o.0, record s { audit = o.1 })

  unfoldable pub plan_chunks : SourceRecord → String → String → Store → Result ℕ × Store
  plan_chunks r checksum location s = (
    c.chunk_builder r.alias checksum location r.type,
    record s {
      plans = s.plans ++ record { alias = r.alias; checksum = checksum; location = location } ∷ [];
    },
  )

  -- `create_source`, up to the record that it builds.
  unfoldable pub new_record : ℕ → SourceCreateRequest → SourceCatalog → Result SourceRecord
  new_record now request catalog = do
    location ← resolve_location c.files request.location
    alias ← generate_alias c.files location request.type (map alias_of catalog.sources)
    checksum ← c.checksum_calculator location
    ok (record {
      alias = alias;
      type = request.type;
      location = location;
      language = default_language request.language;
      size_bytes = c.files.size location;
      last_updated = now;
      status = pending_validation;
      checksum = some checksum;
      notes = request.notes;
    })

  unfoldable pub create_source : ℕ → SourceCreateRequest → Store → Outcome
  unfolding after_plan
  create_source now request s = elim (new_record now request s.catalog) [
    | err e ↦ (err e, s)
    | ok r ↦
        after_plan r
          (log_mutation "source_add" r.alias r.language (some ("location=" <> r.location)))
          (plan_chunks r (or_empty r.checksum) r.location (register now r s))
  ]

  -- The new location, checksum and size, where the request names a location.
  relocate : SourceUpdateRequest → SourceRecord → Result SourceRecord
  relocate request current =
      if truthy request.location
      then (do
        location ← resolve_location c.files (or_empty request.location)
        checksum ← c.checksum_calculator location
        ok (record current {
          location = location;
          checksum = some checksum;
          size_bytes = c.files.size location;
        }))
      else ok current

  unfoldable pub revised : ℕ → SourceUpdateRequest → SourceRecord → Result SourceRecord
  unfolding relocate
  revised now request current = do
    moved ← relocate request current
    ok (record moved {
      language = elim request.language [
        | none ↦ current.language
        | some language ↦ default_language (some language)
      ];
      last_updated = now;
      status = given request.status current.status;
      notes = elim request.notes [ none ↦ current.notes | some notes ↦ some notes ];
    })

  unfoldable pub update_source : ℕ → String → SourceUpdateRequest → Store → Outcome
  unfolding after_plan
  update_source now alias request s = elim (find_source alias s.catalog.sources) [
    | none ↦ (err (value_error ("unknown source alias: " <> alias)), s)
    | some current ↦ elim (revised now request current) [
      | err e ↦ (err e, s)
      | ok updated ↦
          let log = log_mutation "source_update" alias updated.language (update_details request) in
          let saved = save_update now alias current updated s in
          if truthy request.location
          then after_plan updated log
              (plan_chunks updated (or_empty updated.checksum) updated.location saved)
          else finished updated (log saved)
    ]
  ]

  unfoldable pub remove_source : ℕ → String → Option String → Store → Outcome
  remove_source now alias reason s = elim (find_source alias s.catalog.sources) [
    | none ↦ (err (value_error ("unknown source alias: " <> alias)), s)
    | some current ↦
        let updated = withdrawn now reason current in
        let details =
          if truthy reason then "reason=" <> or_empty reason else "reason=unspecified" in
        finished updated (
          log_mutation "source_remove" alias updated.language (some details)
            (save_removal now alias updated s))
  ]

-- The mutations of the ingestion port.
pub data Command : Type 0 where
  create : SourceCreateRequest → Command
  update : String → SourceUpdateRequest → Command
  remove : String → Option String → Command

unfoldable pub run : Collaborators → ℕ → Command → Store → Outcome
run c now (create request) = create_source c now request
run c now (update alias request) = update_source c now alias request
run c now (remove alias reason) = remove_source c now alias reason
