-- ===== src/Tests/Catalog.antt =====
-- The catalog service on a small file system with two archives.
use linux_rag_t.Tests.Audit.{logger}
use linux_rag_t.Catalog.Alias.{slugify, generate_alias, trim_alias}
use linux_rag_t.Prelude.{
  strip, lower, ◌==◌, if◌then◌else◌, ℕ, refl, none, some, ok, err, true, false, [], arith, ◌∷◌,
  String, file_not_found, runtime_error, value_error, ◌≡◌,
}
use linux_rag_t.Catalog.Service.Invariant.{
  start, mutate, IsConsistent, Reachable-IsConsistent, empty_store,
}
use linux_rag_t.Catalog.Service.View.{overwrite, view, written, view-run}
use linux_rag_t.Catalog.Service.{
  create, register, remove, run, Collaborators, Outcome, Store, after_plan, create_source,
  default_language, find_source, log_mutation, new_record, plan_chunks, remove_source,
}
use linux_rag_t.Ports.Ingestion.{kiwix, SourceCreateRequest, SourceRecord, pending_validation}
use linux_rag_t.Prelude.Sort.{sort_by}
use linux_rag_t.Files.{Files, resolve_location}
use linux_rag_t.Catalog.Alias.Fresh.{IsFreshAlias, generate_alias_fresh}

abbrev disk : Files
disk = record {
  expand = λ p. p;
  exists = λ p. if p == "/gone" then false else true;
  is_file = λ p. true;
  stem = λ p. if p == "/data/Linux_Wiki.zim" then "Linux_Wiki" else "other";
  name = λ p. "other.zim";
  size = λ p. 40;
}

abbrev service : Collaborators
service = record {
  files = disk;
  checksum_calculator = λ p. ok "abc";
  chunk_builder = λ a c l t. if l == "/bad" then err (runtime_error "embedding failed") else ok 3;
  audit_logger = some logger;
}

abbrev wiki : SourceCreateRequest
wiki = record {
  type = kiwix;
  location = "/data/Linux_Wiki.zim";
  language = some " EN ";
  notes = none;
}

abbrev wiki_record : String → ℕ → SourceRecord
wiki_record alias now = record {
  alias = alias;
  type = kiwix;
  location = "/data/Linux_Wiki.zim";
  language = "en";
  size_bytes = 40;
  last_updated = now;
  status = pending_validation;
  checksum = some "abc";
  notes = none;
}

once : Store
unfolding run create_source new_record resolve_location generate_alias default_language register
    after_plan plan_chunks log_mutation sort_by lower strip slugify trim_alias
once = (run service 7 (create wiki) empty_store).1

twice : Outcome
unfolding once
twice = run service 8 (create wiki) once

-- The second archive of the same name gets a numbered alias.
create_twice :
    (find_source "linux-wiki" once.catalog.sources ≡ some (wiki_record "linux-wiki" 7))
    × (twice.0 ≡ ok (wiki_record "linux-wiki-2" 8))
    × (twice.1.catalog.version ≡ 2)
unfolding twice linux_rag_t.Storage.Audit.normalize_language_code
create_twice = (refl, refl, refl)

create_missing :
    run service 7 (create (record wiki { location = "/gone" })) empty_store
    ≡ (err (file_not_found "source location /gone does not exist"), empty_store)
unfolding once
create_missing = refl

remove_unknown :
    run service 7 (remove "wiki" none) empty_store
    ≡ (err (value_error "unknown source alias: wiki"), empty_store)
unfolding run remove_source
remove_unknown = refl

generate_alias_fresh_example :
    (alias : String) × (generate_alias disk "/data/Linux_Wiki.zim" kiwix ("linux-wiki" ∷ [])
      ≡ ok alias)
    × IsFreshAlias ("linux-wiki" ∷ []) alias
generate_alias_fresh_example =
    generate_alias_fresh disk "/data/Linux_Wiki.zim" kiwix ("linux-wiki" ∷ []) (omega arith)

view-run_example :
    view (run service 7 (create wiki) empty_store).1 "linux-wiki"
    ≡ overwrite (written service 7 (create wiki) empty_store) (view empty_store) "linux-wiki"
view-run_example = view-run service 7 (create wiki) empty_store "linux-wiki"

Reachable-IsConsistent_example : IsConsistent (run service 7 (create wiki) empty_store).1
Reachable-IsConsistent_example =
    Reachable-IsConsistent (run service 7 (create wiki) empty_store).1
      (mutate service 7 (create wiki) start)

-- A language that is no code: the catalog is saved, and then the audit logger raises.
unaudited :
    ((run service 7 (create (record wiki { language = some "english!" })) empty_store).0
      ≡ err (value_error "language 'english!' is not a valid ISO code"))
    × ((run service 7
          (create (record wiki { language = some "english!" }))
          empty_store).1.catalog.version
        ≡ 1)
unfolding once linux_rag_t.Storage.Audit.normalize_language_code
unaudited = (refl, refl)
