-- ===== src/Tests/Wiring.antt =====
-- Starting on an empty disk, health checks against a slow service, and a reindex run over a directory.
use linux_rag_t.Prelude.{
  ◌⊎◌, ltb, ◌&&◌, ◌==◌, if◌then◌else◌, not, ℕ, refl, none, some, ok, err, true, false, [], ◌∷◌,
  List, Result, String, other_error, value_error, ◌≡◌,
}
use linux_rag_t.Json.{Json, Codec, null, object, no_keys}
use linux_rag_t.Storage.Catalog.{load, empty_catalog}
use linux_rag_t.Ports.Ingestion.{
  active, manual, succeeded, IngestionJob, SourceCatalog, SourceRecord, full_percent,
}
use linux_rag_t.Storage.{encode_catalog}
use linux_rag_t.Files.{resolve_location}
use linux_rag_t.Transport.Index.{ensure_index_current}
use linux_rag_t.Launcher.{HandlerSettings}
use linux_rag_t.Wiring.Checks.Decided.{Decided, checks-Decided}
use linux_rag_t.Wiring.Retry.{retry_with_backoff}
use linux_rag_t.Reindex.State.{Event, Service}
use linux_rag_t.Wiring.Checks.{
  Services, ollama_endpoint, ollama_health_check, weaviate_endpoint, weaviate_health_check,
  without_slash,
}
use linux_rag_t.Wiring.Checksum.{
  PathContent, a_directory, calculate_checksum, directories_skipped, with_checksums,
}
use linux_rag_t.Storage.Disk.{Disk}
use linux_rag_t.Wiring.Bootstrap.{
  bootstrap_catalog, has_index, seed_bootstrap-current, seed_bootstrap_catalog,
}
use linux_rag_t.Reindex.Run.{run}
use linux_rag_t.Reindex.Chunked.{chunks}
use linux_rag_t.Tests.Reindex.{service, source}
use linux_rag_t.Tests.Storage.{codec_for, codec_for-IsCodec}

abbrev seeded_json : Json
seeded_json = encode_catalog (codec_for (λ s. ok null)) (bootstrap_catalog 4)

abbrev codec : Codec
codec = codec_for (λ s. if s == "saved" then ok seeded_json else err (value_error "no JSON"))

abbrev empty_disk : Disk
empty_disk name = none

seeded_reads :
    codec.loads (codec.dumps (encode_catalog codec (bootstrap_catalog 4)))
    ≡ ok (encode_catalog codec (bootstrap_catalog 4))
unfolding encode_catalog
seeded_reads = refl

nothing_there : load codec "catalog.json" 4 empty_disk ≡ ok (empty_catalog 4)
unfolding load
nothing_there = refl

seed_bootstrap-current_example :
    (((not false && has_index (empty_catalog 4)) ≡ true)
      × (seed_bootstrap_catalog codec "catalog.json" 4 false false empty_disk
          ≡ (ok tt, empty_disk)))
    ⊎ (((not false && has_index (empty_catalog 4)) ≡ false)
        × ((e : Disk) × (seed_bootstrap_catalog codec "catalog.json" 4 false false empty_disk
              ≡ (ok tt, e))
            × (load codec "catalog.json" 4 e ≡ ok (bootstrap_catalog 4))
            × (ensure_index_current (bootstrap_catalog 4) ≡ none)))
seed_bootstrap-current_example =
    seed_bootstrap-current codec "catalog.json" 4
      (codec_for-IsCodec
        (λ s. if s == "saved" then ok seeded_json else err (value_error "no JSON")))
      seeded_reads false empty_disk (empty_catalog 4) nothing_there

-- The third request succeeds.
abbrev slow : String → ℕ → Result Json
slow url n = if ltb n 2 then err (other_error "refused") else ok (object no_keys)

abbrev services : Services
services = record {
  codec = codec;
  using_fakes = false;
  get_json = slow;
  request = λ url n. err (other_error "refused");
}

abbrev settings : HandlerSettings
settings = record {
  weaviate_url = "http://w/";
  weaviate_grpc_port = 50051;
  ollama_url = "http://o/";
  phoenix_url = none;
  embedding_model = "e";
  completion_model = "m";
  data_dir = "/d";
  disable_bootstrap = false;
}

checks-Decided_example :
    Decided
      (services.get_json (ollama_endpoint services settings))
      (ollama_health_check services settings)
    × Decided
        (services.get_json (weaviate_endpoint services settings))
        (weaviate_health_check services settings)
checks-Decided_example = checks-Decided services settings refl

third_time :
    retry_with_backoff (slow "u") []
    ≡ record { result = ok (object no_keys); calls = 3; slept = 500 ∷ 1000 ∷ [] }
unfolding retry_with_backoff
third_time = refl

trimmed_url : without_slash "http://o//" ≡ "http://o"
unfolding without_slash
trimmed_url = refl

abbrev man_pages : SourceRecord
man_pages = source "man" active "sha256:man"

abbrev one_directory : SourceCatalog
one_directory = record { version = 2; updated_at = 1; sources = man_pages ∷ []; snapshots = [] }

abbrev directory_service : Service
directory_service = record service { load = ok one_directory }

abbrev place : String → PathContent
place location = a_directory

abbrev skipped_run : Result IngestionJob × List Event
skipped_run = run (with_checksums directory_service place) manual "job" false

abbrev skipped_job : IngestionJob
skipped_job = record {
  job_id = "job";
  source_alias = "*";
  status = succeeded;
  requested_at = 9;
  started_at = some 9;
  completed_at = some 9;
  documents_processed = 0;
  stage = some "completed";
  percent_complete = some full_percent;
  error_message = none;
  trigger = manual;
}

skipped_ok : skipped_run.0 ≡ ok skipped_job
unfolding run resolve_location calculate_checksum
skipped_ok = refl

directories_skipped_example : chunks skipped_run.1 ≡ []
directories_skipped_example =
    directories_skipped directory_service place manual "job" one_directory skipped_job (λ s. refl)
      refl skipped_ok (record { place = refl; known = refl }, tt)
