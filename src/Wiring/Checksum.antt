-- ===== src/Wiring/Checksum.antt =====
-- `_calculate_checksum` of backend/src/adapters/transport/handlers/builders.py, and what it means for
-- reindex runs over directories.
use linux_rag_t.Reindex.Run.{run}
use linux_rag_t.Reindex.Chunked.{chunks, chunks-run, needs_chunks}
use linux_rag_t.Prelude.Keyed.{keys, str-eq_refl}
use linux_rag_t.Prelude.{
  ap, ◌∙◌, keep, ◌<>◌, refl, none, some, inl, inr, ok, err, false, [], arith, ◌∷◌, All, Bool-cases,
  Error, List, Result, String, ◌≡◌,
}
use linux_rag_t.Reindex.Chunked.{chunks-run, needs_chunks}
use linux_rag_t.Transport.Router.Contents.{content_of}
use linux_rag_t.Files.{resolve_location}
use linux_rag_t.Reindex.State.{Service}
use linux_rag_t.Ports.Ingestion.{IngestionJob, IngestionTrigger, SourceCatalog, SourceRecord}
use linux_rag_t.Catalog.Service.{alias_of}

-- What a path stands for. A file has its bytes.
pub data PathContent : Type 0 where
  file_bytes : String → PathContent
  a_directory : PathContent
  unreadable : Error → PathContent

-- The digest of a directory is that of its name.
unfoldable pub calculate_checksum : (String → String) → String → PathContent → Result String
calculate_checksum sha256 name (file_bytes s) = ok ("sha256:" <> sha256 s)
calculate_checksum sha256 name a_directory = ok ("sha256:" <> sha256 name)
calculate_checksum sha256 name (unreadable e) = err e

-- The service with this calculator.
abbrev pub with_checksums : Service → (String → PathContent) → Service
with_checksums c content_of = record c {
  checksum_calculator =
      λ location. calculate_checksum c.sha256 (c.files.name location) (content_of location);
}

-- A source that is a directory, with the checksum that it got when it was added or last indexed.
pub record IsIndexedDirectory (c : Service) (content_of : String → PathContent) (r : SourceRecord)
    : Type 0 where
  pub place : content_of (c.files.expand r.location) ≡ a_directory
  pub known : r.checksum ≡ some ("sha256:" <> c.sha256 (c.files.name (c.files.expand r.location)))

module _ (c : Service) (content_of : String → PathContent) where
  directory_unchanged :
      (r : SourceRecord)
      → IsIndexedDirectory c content_of r
      → needs_chunks (with_checksums c content_of) false r ≡ false
  unfolding resolve_location calculate_checksum
  directory_unchanged r d = elim (Bool-cases (c.files.exists (c.files.expand r.location))) [
    | inl e ↦ rw (e, d.place, d.known, str-eq_refl) (ground arith)
    | inr e ↦ rw e (ground arith)
  ]

  directories_unchanged :
      (l : List SourceRecord)
      → All (IsIndexedDirectory c content_of) l
      → keep (needs_chunks (with_checksums c content_of) false) l ≡ []
  directories_unchanged [] h = refl
  directories_unchanged (r ∷ l) h = rw (directory_unchanged r h.0) (directories_unchanged l h.1)

-- Where every source is a directory that was indexed before, a run that returns without
-- `force_rebuild` calls the chunk builder for none of them, whatever their files hold by now.
pub directories_skipped :
    (c : Service) (content_of : String → PathContent) (trigger : IngestionTrigger) (job_id : String)
    (catalog : SourceCatalog) (job : IngestionJob)
    → ((status : String) → c.append_audit status ≡ none)
    → c.load ≡ ok catalog
    → (run (with_checksums c content_of) trigger job_id false).0 ≡ ok job
    → All (IsIndexedDirectory c content_of) catalog.sources
    → chunks (run (with_checksums c content_of) trigger job_id false).1 ≡ []
directories_skipped c content_of trigger job_id catalog job quiet loaded done directories =
    chunks-run (with_checksums c content_of) trigger job_id false catalog job quiet loaded done
    ∙ ap (keys alias_of) (directories_unchanged c content_of catalog.sources directories)
