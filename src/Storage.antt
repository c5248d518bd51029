-- ===== src/Storage.antt =====
-- backend/src/adapters/storage/catalog.py and index_version.py: the JSON of a catalog and of an index
-- version, and the files that hold them. Where the code would put a value of another type in a field
-- of a record, since it checks none, the model stops with the error `untyped`.
pub mod Disk
pub mod RoundTrip
pub mod Catalog
pub mod Atomic
pub mod IndexVersion
pub mod Audit
use linux_rag_t.Json.{
  items_of, get, Dict, list_of, subscript, Json, Codec, attribute_error, get_default, int_of,
  json_dict, json_list, optional_text, type_error, null, text, array, object, number, no_values,
  and_value, no_keys, and_key,
}
use linux_rag_t.Ports.Ingestion.{
  info, kiwix, quarantined, active, man, SourceCatalog, SourceRecord, SourceSnapshot, SourceStatus,
  SourceType, pending_validation, type_value,
}
use linux_rag_t.Prelude.{
  ◌<>◌, ◌++◌, chars, code, eqb, map, ℕ, ◌==◌, if◌then◌else◌, none, some, ok, err, [], ◌∷◌, Char,
  Error, List, Option, Result, String, of_chars, other_error, value_error, ◌>>=◌,
}

abbrev pub untyped : Error
untyped = other_error "a field of another type"

abbrev pub as_text : Json → Result String
as_text (text s) = ok s
as_text _ = err untyped

abbrev pub as_optional : Json → Result (Option String)
as_optional null = ok none
as_optional (text s) = ok (some s)
as_optional _ = err untyped

abbrev pub status_value : SourceStatus → String
status_value pending_validation = "pending_validation"
status_value active = "active"
status_value quarantined = "quarantined"
status_value SourceStatus.error = "error"

-- `SourceType(value)`
unfoldable pub source_type : Codec → Json → Result SourceType
source_type c (text s) =
    if s == "man"
    then ok man
    else if s == "kiwix"
    then ok kiwix
    else if s == "info"
    then ok info
    else err (value_error (c.repr (text s) <> " is not a valid SourceType"))
source_type c j = err (value_error (c.repr j <> " is not a valid SourceType"))

-- `SourceStatus(value)`
unfoldable pub source_status : Codec → Json → Result SourceStatus
source_status c (text s) =
    if s == "pending_validation"
    then ok pending_validation
    else if s == "active"
    then ok active
    else if s == "quarantined"
    then ok quarantined
    else if s == "error"
    then ok SourceStatus.error
    else err (value_error (c.repr (text s) <> " is not a valid SourceStatus"))
source_status c j = err (value_error (c.repr j <> " is not a valid SourceStatus"))

-- `value.replace("Z", "+00:00")`
unfoldable pub replace_z : List Char → List Char
replace_z [] = []
replace_z (c ∷ l) = (if eqb (code c) b'Z' then chars "+00:00" else c ∷ []) ++ replace_z l

-- `[decode(data) for data in values]`
module _ {ℓ} {A : Type ℓ} (decode : Json → Result A) where
  unfoldable pub decode_each : List Json → Result (List A)
  decode_each [] = ok []
  decode_each (j ∷ l) = do a ← decode j; rest ← decode_each l; ok (a ∷ rest)

  unfoldable pub decode_all : Json → Result (List A)
  unfolding decode_each
  decode_all j = items_of j >>= decode_each

module _ (c : Codec) where
  -- `_decode_datetime`
  unfoldable pub decode_datetime : Json → Result ℕ
  unfolding replace_z of_chars
  decode_datetime (text s) = c.fromisoformat (of_chars (replace_z (chars s)))
  decode_datetime _ = err attribute_error

  unfoldable pub encode_record : SourceRecord → Json
  encode_record r = json_dict (
      ("alias", text r.alias)
      ∷ ("type", text (type_value r.type))
      ∷ ("location", text r.location)
      ∷ ("language", text r.language)
      ∷ ("size_bytes", number r.size_bytes)
      ∷ ("last_updated", text (c.isoformat r.last_updated))
      ∷ ("status", text (status_value r.status))
      ∷ ("checksum", optional_text r.checksum)
      ∷ ("notes", optional_text r.notes)
      ∷ [])

  unfoldable pub decode_record : Json → Result SourceRecord
  unfolding source_type source_status decode_datetime
  decode_record payload = do
    alias ← subscript payload "alias" >>= as_text
    type ← subscript payload "type" >>= source_type c
    location ← subscript payload "location" >>= as_text
    language ← subscript payload "language" >>= as_text
    size_bytes ← subscript payload "size_bytes" >>= int_of c
    last_updated ← subscript payload "last_updated" >>= decode_datetime
    status ← subscript payload "status" >>= source_status c
    checksum ← get payload "checksum" >>= as_optional
    notes ← get payload "notes" >>= as_optional
    ok (record {
      alias = alias;
      type = type;
      location = location;
      language = language;
      size_bytes = size_bytes;
      last_updated = last_updated;
      status = status;
      checksum = checksum;
      notes = notes;
    })

  unfoldable pub encode_snapshot : SourceSnapshot → Json
  encode_snapshot s = json_dict (("alias", text s.alias) ∷ ("checksum", text s.checksum) ∷ [])

  unfoldable pub decode_snapshot : Json → Result SourceSnapshot
  decode_snapshot payload = do
    alias ← subscript payload "alias" >>= as_text
    checksum ← subscript payload "checksum" >>= as_text
    ok (record { alias = alias; checksum = checksum })

  unfoldable pub encode_catalog : SourceCatalog → Json
  unfolding encode_record encode_snapshot
  encode_catalog catalog = json_dict (
      ("version", number catalog.version)
      ∷ ("updated_at", text (c.isoformat catalog.updated_at))
      ∷ ("sources", json_list (map encode_record catalog.sources))
      ∷ ("snapshots", json_list (map encode_snapshot catalog.snapshots))
      ∷ [])

  unfoldable pub decode_catalog : Json → Result SourceCatalog
  unfolding decode_record decode_snapshot decode_datetime
  decode_catalog payload = do
    version ← subscript payload "version" >>= int_of c
    updated_at ← subscript payload "updated_at" >>= decode_datetime
    sources ← get_default payload "sources" (json_list []) >>= decode_all decode_record
    snapshots ← get_default payload "snapshots" (json_list []) >>= decode_all decode_snapshot
    ok (record {
      version = version;
      updated_at = updated_at;
      sources = sources;
      snapshots = snapshots;
    })
