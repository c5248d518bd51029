-- ===== src/Storage/Catalog.antt =====
-- `CatalogStorage` of backend/src/adapters/storage/catalog.py over the files of its directory.
use linux_rag_t.Prelude.{ℕ, none, some, ok, [], Option, Result, String, ◌>>=◌}
use linux_rag_t.Storage.Disk.{perform, Disk, save_ops}
use linux_rag_t.Json.{Codec}
use linux_rag_t.Storage.{decode_catalog, encode_catalog}
use linux_rag_t.Ports.Ingestion.{SourceCatalog}

abbrev pub empty_catalog : ℕ → SourceCatalog
empty_catalog now = record { version = 0; updated_at = now; sources = []; snapshots = [] }

abbrev pub load_text : Codec → ℕ → Option String → Result SourceCatalog
load_text c now none = ok (empty_catalog now)
load_text c now (some s) = c.loads s >>= decode_catalog c

unfoldable pub load : Codec → String → ℕ → Disk → Result SourceCatalog
load c filename now d = load_text c now (d filename)

unfoldable pub save : Codec → String → SourceCatalog → Disk → Disk
unfolding perform save_ops encode_catalog
save c filename catalog d = perform (save_ops c filename (encode_catalog c catalog)) d
