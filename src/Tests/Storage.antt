-- ===== src/Tests/Storage.antt =====
-- A catalog of one source over an older file, saved and loaded, with times written as decimal numbers.
use linux_rag_t.Domain.Models.{ready, ContentIndexVersion}
use linux_rag_t.Storage.IndexVersion.{encode_index_version, save_index}
use linux_rag_t.Prelude.{
  sym, code, ◌<>◌, ◌==◌, ◌∙◌, ◌⊎◌, ap, chars, eqb, if◌then◌else◌, ℕ, refl, none, some, ok, err,
  false, [], arith, ◌∷◌, All, Char, List, Result, String, chars-of_chars, of_chars, value_error,
  ◌≡◌,
}
use mathlib.Core.Path.{subst}
use linux_rag_t.Ports.Ingestion.{active, man, SourceCatalog}
use linux_rag_t.Prelude.Decimal.{
  decimal, IsDigit, decimal-IsDigit, str_nat, value_from, value_from-decimal,
}
use linux_rag_t.Storage.Catalog.{save, load, empty_catalog}
use linux_rag_t.Storage.Disk.{torn, apply, put, Disk, Interrupted, save_ops, temp_name, later}
use linux_rag_t.Json.{Json, text, Codec, json_dict, key_error, null}
use linux_rag_t.Storage.RoundTrip.{IsCodec}
use linux_rag_t.Storage.Atomic.{load-save, save_atomic}
use linux_rag_t.Storage.{decode_record, encode_catalog, replace_z, source_status}

-- Z is no digit.
plain_digits : (l : List Char) → All IsDigit l → All (λ ch. eqb (code ch) b'Z' ≡ false) l
plain_digits [] h = tt
plain_digits (c ∷ l) h = (ground (arith, h.0), plain_digits l h.1)

abbrev pub codec_for : (String → Result Json) → Codec
codec_for loads = record {
  dumps = λ j. "saved";
  loads = loads;
  isoformat = str_nat;
  fromisoformat = λ s. ok (value_from 0 (chars s));
  parse_int = λ s. ok (value_from 0 (chars s));
  str = λ j. "value";
  repr = λ j. "value";
}

abbrev pub written : SourceCatalog
written = record {
  version = 5;
  updated_at = 77;
  sources =
      record {
        alias = "bash";
        type = man;
        location = "/usr/share/man";
        language = "en";
        size_bytes = 3;
        last_updated = 76;
        status = active;
        checksum = some "c1";
        notes = none;
      }
      ∷ [];
  snapshots = record { alias = "bash"; checksum = "c1" } ∷ [];
}

abbrev pub json : Json
json = encode_catalog (codec_for (λ s. ok null)) written

abbrev pub codec : Codec
codec = codec_for (λ s. if s == "saved" then ok json else err (value_error "no JSON"))

codec_decimal : (t : ℕ) → chars (str_nat t) ≡ decimal t
unfolding str_nat
codec_decimal t = chars-of_chars (decimal t)

pub codec_for-IsCodec : (loads : String → Result Json) → IsCodec (codec_for loads)
codec_for-IsCodec loads = record {
  reads = λ t. ap (λ l. ok (value_from 0 l)) (codec_decimal t) ∙ ap ok (value_from-decimal t);
  plain = λ t.
      subst (All (λ ch. eqb (code ch) b'Z' ≡ false)) (sym (codec_decimal t))
        (plain_digits (decimal t) (decimal-IsDigit t));
}

codec-IsCodec : IsCodec codec
codec-IsCodec =
    codec_for-IsCodec (λ s. if s == "saved" then ok json else err (value_error "no JSON"))

abbrev older : Disk
older name = if name == "catalog.json" then some "older" else none

codec_reads :
    codec.loads (codec.dumps (encode_catalog codec written)) ≡ ok (encode_catalog codec written)
unfolding encode_catalog
codec_reads = refl

load-save_example :
    load codec "catalog.json" 9 (save codec "catalog.json" written older) ≡ ok written
load-save_example = load-save codec codec-IsCodec "catalog.json" 9 written codec_reads older

-- The process dies while it writes the temporary file.
abbrev torn_disk : Disk
torn_disk = put (temp_name "catalog.json") (some "sav") older

torn_save :
    Interrupted (save_ops codec "catalog.json" (encode_catalog codec written)) older torn_disk
unfolding save_ops apply
torn_save = later (torn (some "sav"))

save_atomic_example :
    (load codec "catalog.json" 9 torn_disk ≡ load codec "catalog.json" 9 older)
    ⊎ (load codec "catalog.json" 9 torn_disk ≡ ok written)
save_atomic_example =
    save_atomic codec codec-IsCodec "catalog.json" 9 written codec_reads older torn_disk torn_save

missing : load codec "catalog.json" 9 (λ name. none) ≡ ok (empty_catalog 9)
unfolding load
missing = refl

-- A record without a checksum is read, one without a status is not.
short_record : decode_record codec (json_dict (("alias", text "a") ∷ [])) ≡ err (key_error "type")
unfolding decode_record
short_record = refl

unknown_status :
    source_status codec (text "broken")
    ≡ err (value_error ("value" <> " is not a valid SourceStatus"))
unfolding source_status
unknown_status = refl

utc_z : of_chars (replace_z (chars "2025-01-01T00:00:00Z")) ≡ "2025-01-01T00:00:00+00:00"
unfolding replace_z of_chars
utc_z = refl

abbrev version_1 : ContentIndexVersion
version_1 = record {
  index_id = "content";
  status = ready;
  checksum = "s";
  source_snapshot = [];
  size_bytes = 3;
  document_count = 2;
  trigger_job_id = "job";
  built_at = some 5;
  freshness_expires_at = none;
  retrieval_latency_ms = none;
  llm_latency_ms = none;
}

index_saved :
    Interrupted
      (save_ops codec "index_version.json" (encode_index_version codec version_1))
      older
      (save_index codec "index_version.json" version_1 older)
unfolding save_index
index_saved = later (later (later Interrupted.stopped))
