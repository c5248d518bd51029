-- ===== src/Storage/Audit.antt =====
-- `AuditLogger` of backend/src/adapters/storage/audit_log.py. Whether a file can be written is an
-- argument; a write is whole. A seeded source is a JSON value.
pub mod Code
pub mod Entries
use linux_rag_t.Prelude.Parts.{every, split_on}
use linux_rag_t.Catalog.Alias.{dash, is_dash}
use linux_rag_t.Prelude.{
  chars, length, code, leb, map, nonempty, not, ◌++◌, ◌<>◌, ◌==◌, eqb, if◌then◌else◌, lower, strip,
  ℕ, ◌&&◌, ◌||◌, none, some, ok, err, true, false, [], ◌∷◌, Bool, Char, Error, List, Option, Result,
  String, or_empty, other_error, value_error, ◌>>=◌,
}
use linux_rag_t.Json.{
  lookup, Dict, Json, Codec, json_dict, json_list, or_json, text_of, null, text, object, array,
}

-- What a write to a path comes to: it is done, the permission is denied, or another exception.
pub data Write : Type 0 where
  written denied : Write
  broken : Error → Write

-- The path of the logger, and the lines written so far with their paths.
pub record Log : Type 0 where
  pub path : String
  pub lines : List (String × String)

pub record Logger : Type 0 where
  pub codec : Codec
  pub write : String → Write
  -- `Path.cwd() / ".ragcli" / name` for the name of the log's file
  pub fallback : String → String
  pub now : ℕ

abbrev pub in_range : ℕ → ℕ → Char → Bool
in_range lo hi ch = leb lo (code ch) && leb (code ch) hi

abbrev pub is_letter : Char → Bool
is_letter = in_range b'a' b'z'

abbrev pub is_alphanumeric : Char → Bool
is_alphanumeric ch = is_letter ch || in_range b'0' b'9' ch

-- `[…]{2,8}`
abbrev pub is_part : (Char → Bool) → List Char → Bool
is_part p l = every p l && leb 2 (length l) && leb (length l) 8

abbrev pub are_parts : List (List Char) → Bool
are_parts [] = true
are_parts (part ∷ l) = is_part is_alphanumeric part && are_parts l

abbrev pub match_parts : List (List Char) → Bool
match_parts [] = false
match_parts (part ∷ l) = is_part is_letter part && are_parts l

-- `_LANGUAGE_PATTERN.fullmatch`: `[a-z]{2,8}(?:-[a-z0-9]{2,8})*`
unfoldable pub is_language_code : List Char → Bool
unfolding split_on
is_language_code l = match_parts (split_on dash l)

unfoldable pub normalize_language_code : String → Result String
unfolding is_language_code
normalize_language_code language =
    let candidate = lower (strip language) in
    if not (nonempty candidate)
    then err (value_error "language must not be empty")
    else if not (is_language_code (chars candidate))
    then err (value_error ("language '" <> language <> "' is not a valid ISO code"))
    else ok candidate

unfoldable pub require_trace_id : Option String → Result String
require_trace_id trace_id =
    let candidate = strip (or_empty trace_id) in
    if nonempty candidate
    then ok candidate
    else err (value_error "trace_id must be provided for admin audit entries")

abbrev pub text_entry : String → Option String → List (String × Json)
text_entry key none = []
text_entry key (some s) = if nonempty s then (key, text s) ∷ [] else []

abbrev pub warning_entry : String → List (String × Json)
warning_entry language =
    if language == "en" then [] else ("warning", text ("non_english_language:" <> language)) ∷ []

module _ (c : Logger) where
  abbrev pub line_of : Json → String
  line_of entry = c.codec.dumps entry <> "\n"

  abbrev pub add_line : String → Json → Log → Log
  add_line path entry log = record { path = path; lines = log.lines ++ (path, line_of entry) ∷ [] }

  abbrev pub permission_error : Error
  permission_error = other_error "PermissionError"

  -- The second attempt. The logger keeps the other path, also where this attempt raises.
  abbrev pub append_again : String → Json → Log → Write → Option Error × Log
  append_again path entry log written = (none, add_line path entry log)
  append_again path entry log denied = (some permission_error, record log { path = path })
  append_again path entry log (broken e) = (some e, record log { path = path })

  abbrev pub append_by : Json → Log → Write → Option Error × Log
  append_by entry log written = (none, add_line log.path entry log)
  append_by entry log denied =
      if c.fallback log.path == log.path
      then (some permission_error, log)
      else append_again (c.fallback log.path) entry log (c.write (c.fallback log.path))
  append_by entry log (broken e) = (some e, log)

  unfoldable pub append : Json → Log → Option Error × Log
  append entry log = append_by entry log (c.write log.path)

  abbrev pub mutation_entry :
      String → String → String → String → Option String → Option String → Json
  mutation_entry action alias status language trace_id details = json_dict (
      ("timestamp", text (c.codec.isoformat c.now))
      ∷ ("actor", text "rag-backend")
      ∷ ("action", text action)
      ∷ ("target", text alias)
      ∷ ("status", text status)
      ∷ ("language", text language)
      ∷ (text_entry "trace_id" trace_id ++ text_entry "details" details ++ warning_entry language))

  abbrev pub append_if : Result Json → Log → Option Error × Log
  append_if (err e) log = (some e, log)
  append_if (ok entry) log = append entry log

  unfoldable pub log_mutation :
      String → String → String → String → Option String → Option String → Log → Option Error × Log
  unfolding append
  log_mutation action alias status language trace_id details log =
      append_if
        (do
          code ← normalize_language_code language
          ok (mutation_entry action alias status code trace_id details))
        log

  -- `_normalize_seeded_sources`
  abbrev pub alias_text : Dict → Json → String
  alias_text p null = c.codec.dumps (object p)
  alias_text p j = text_of c.codec j

  abbrev pub seeded_alias : Json → Json
  seeded_alias (text s) = text s
  seeded_alias (object p) = text (alias_text p (or_json (lookup "alias" p) null))
  seeded_alias j = text (c.codec.str j)

  -- `_materialize_dicts`
  abbrev pub as_dict : Json → Json
  as_dict (object p) = object p
  as_dict j = json_dict (("value", j) ∷ [])

  unfoldable pub log_admin_init :
      String → Option String → List String → List Json → List Json → Log → Option Error × Log
  unfolding append
  log_admin_init status trace_id directories seeded checks log =
      append_if
        (do
          trace ← require_trace_id trace_id
          ok (
              json_dict (
                ("timestamp", text (c.codec.isoformat c.now))
                ∷ ("actor", text "rag-backend")
                ∷ ("action", text "admin_init")
                ∷ ("status", text status)
                ∷ ("trace_id", text trace)
                ∷ ("created_directories", json_list (map text directories))
                ∷ ("seeded_sources", json_list (map seeded_alias seeded))
                ∷ ("dependency_checks", json_list (map as_dict checks))
                ∷ [])))
        log

  unfoldable pub log_admin_health : String → Option String → List Json → Log → Option Error × Log
  unfolding append
  log_admin_health overall_status trace_id results log =
      append_if
        (do
          trace ← require_trace_id trace_id
          ok (
              json_dict (
                ("timestamp", text (c.codec.isoformat c.now))
                ∷ ("actor", text "rag-backend")
                ∷ ("action", text "admin_health")
                ∷ ("overall_status", text overall_status)
                ∷ ("trace_id", text trace)
                ∷ ("results", json_list (map as_dict results))
                ∷ [])))
        log
