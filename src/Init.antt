-- ===== src/Init.antt =====
-- backend/src/application/init_service.py. The port, the directories and the writer of the default
-- configuration are arguments.
pub mod Alias
pub mod Laws
pub mod Prepared
pub mod Asked
pub mod Seeded
pub mod Again
use linux_rag_t.Prelude.{
  message, ◌||◌, contains, ℕ, ok, err, [], ◌∷◌, Bool, Error, Result, code, ◌++◌, eqb, map, ◌==◌,
  chars, if◌then◌else◌, none, some, Char, List, Option, String, is_nil, of_chars, ◌≡◌, ◌>>=◌,
}
use linux_rag_t.Json.{text, Json, Codec, json_dict}
use linux_rag_t.Transport.Serialize.{serialize_source_record}
use linux_rag_t.Catalog.Service.{alias_of, find_source}
use linux_rag_t.Ports.Ingestion.{
  SourceCatalog, SourceRecord, SourceCreateRequest, type_value, man, kiwix, info, SourceType,
}
use linux_rag_t.Catalog.Alias.{dash}
use linux_rag_t.Paths.{suffix, parse, print, stem, PurePath, with_name}

abbrev pub hyphen : Char → Char
hyphen ch = if eqb (code ch) b'_' then dash else ch

-- `_SEED_ALIAS_BY_TYPE`, and the alias of another type from the stem
abbrev pub alias_by_type : SourceType → List Char → List Char
alias_by_type man name = chars "man-pages"
alias_by_type info name = chars "info-pages"
alias_by_type kiwix name = if is_nil name then chars (type_value kiwix) else map hyphen name

unfoldable pub alias_for_request : SourceCreateRequest → String
alias_for_request q = of_chars (alias_by_type q.type (stem (parse (chars q.location))))

abbrev pub renamed : List Char → Option PurePath → String
renamed replacement none = of_chars replacement
renamed replacement (some p) = of_chars (print p)

unfoldable pub apply_alias_to_location : String → String → String
apply_alias_to_location location alias =
    let p = parse (chars location) in
    if of_chars (stem p) == alias
    then of_chars (print p)
    else renamed (chars alias ++ suffix p) (with_name (chars alias ++ suffix p) p)

-- What creating a source comes to: its record, a FrozenInstanceError, or another exception.
pub data Created : Type 0 where
  created : SourceRecord → Created
  frozen : Created
  raised : Error → Created

-- What the service works on, over the state S of the file system and of the port.
pub record Host (S : Type 0) : Type 0 where
  pub exists : String → S → Bool
  pub mkdir : String → S → Option Error × S
  pub write_default : S → Option Error × S
  pub list_sources : S → Result SourceCatalog
  pub create_source : SourceCreateRequest → S → Created × S
  -- `str(Path(location).expanduser())`
  pub normalize_location : String → String
  pub codec : Codec

pub record InitSummary : Type 0 where
  pub catalog_version : ℕ
  pub created_directories : List String
  pub seeded_sources : List Json
  pub dependency_checks : List Json

-- `_run_dependency_checks`
unfoldable pub run_dependency_checks : List (Result Json) → List Json
run_dependency_checks [] = []
run_dependency_checks (ok j ∷ l) = j ∷ run_dependency_checks l
run_dependency_checks (err e ∷ l) =
    json_dict (("status", text "error") ∷ ("message", text (message e)) ∷ [])
    ∷ run_dependency_checks l

abbrev pub prepared_request : SourceCreateRequest → SourceCreateRequest
prepared_request q = record q {
  location = apply_alias_to_location q.location (alias_for_request q);
}

abbrev pub locations : (String → String) → SourceCatalog → List String
locations normalize catalog = map (λ r. normalize r.location) catalog.sources

abbrev pub aliases : SourceCatalog → List String
aliases catalog = map alias_of catalog.sources

-- A step that can raise, and the next one.
abbrev pub and_then : {A B S : Type 0} → Result A × S → (A → S → Result B × S) → Result B × S
and_then (ok a, s) f = f a s
and_then (err e, s) f = (err e, s)

abbrev pub unless_raised : {S : Type 0} → Option Error × S → Result (Unit {0}) × S
unless_raised (none, s) = (ok tt, s)
unless_raised (some e, s) = (err e, s)

module _ {S : Type 0} (h : Host S) where
  abbrev pub ensure : String → S → Result (Unit {0}) × S
  ensure target s = if h.exists target s then (ok tt, s) else unless_raised (h.mkdir target s)

  unfoldable pub prepare_directories : List String → S → Result (List String) × S
  prepare_directories [] s = (ok [], s)
  prepare_directories (target ∷ l) s =
      and_then (ensure target s)
        (λ _ s1. and_then (prepare_directories l s1) (λ names s2. (ok (target ∷ names), s2)))

  abbrev pub listed : S → Result SourceCatalog × S
  listed s = (h.list_sources s, s)

  abbrev pub seed_result : String → Created × S → Result (Option SourceRecord) × S
  seed_result alias (created r, s) = (ok (some r), s)
  seed_result alias (frozen, s) =
      and_then (listed s) (λ catalog s1. (ok (find_source alias catalog.sources), s1))
  seed_result alias (raised e, s) = (err e, s)

  -- `_invoke_seed_request`
  unfoldable pub invoke_seed_request :
      SourceCreateRequest → String → S → Result (Option SourceRecord) × S
  invoke_seed_request q alias s = seed_result alias (h.create_source q s)

  abbrev pub is_present : List String → List String → SourceCreateRequest → Bool
  is_present known places q =
      contains known (alias_for_request q) || contains places (h.normalize_location q.location)

  -- The rest of the loop, where a record was found or not.
  abbrev pub seed_next :
      (List String → List String → S → Result (List Json) × S)
      → List String
      → List String
      → Option SourceRecord
      → S
      → Result (List Json) × S
  seed_next rest known places none s = rest known places s
  seed_next rest known places (some r) s =
      and_then (rest (r.alias ∷ known) (h.normalize_location r.location ∷ places) s)
        (λ seeded s1. (ok (serialize_source_record h.codec r ∷ seeded), s1))

  unfoldable pub seed_missing_sources :
      List SourceCreateRequest → List String → List String → S → Result (List Json) × S
  unfolding invoke_seed_request
  seed_missing_sources [] known places s = (ok [], s)
  seed_missing_sources (q ∷ l) known places s =
      if is_present known places q
      then seed_missing_sources l known places s
      else and_then (invoke_seed_request (prepared_request q) (alias_for_request q) s)
          (seed_next (seed_missing_sources l) known places)

  module _ (targets : List String) (checks : List (Result Json))
      (defaults : List SourceCreateRequest) where
    abbrev pub summary : List String → List Json → SourceCatalog → InitSummary
    summary directories seeded final = record {
      catalog_version = final.version;
      created_directories = directories;
      seeded_sources = seeded;
      dependency_checks = run_dependency_checks checks;
    }

    -- `bootstrap` from the dependency checks on
    unfoldable pub finish : List String → List Json → S → Result InitSummary × S
    unfolding run_dependency_checks
    finish directories seeded s =
        and_then (listed s) (λ final s1. (ok (summary directories seeded final), s1))

    -- `bootstrap` from the first listing on
    unfoldable pub seed : List String → S → Result InitSummary × S
    unfolding seed_missing_sources finish
    seed directories s = and_then (listed s) (λ catalog s1.
        and_then
          (seed_missing_sources defaults (aliases catalog) (locations h.normalize_location catalog)
            s1)
          (finish directories))

    unfoldable pub bootstrap : S → Result InitSummary × S
    unfolding prepare_directories seed
    bootstrap s =
        and_then (prepare_directories targets s)
          (λ directories s1. and_then (unless_raised (h.write_default s1)) (λ _. seed directories))
