-- ===== src/Wiring/Bootstrap.antt =====
-- `_seed_bootstrap_catalog` of backend/src/adapters/transport/handlers/factory.py.
use linux_rag_t.Transport.Index.{checksum_of, ensure_index_current}
use linux_rag_t.Ports.Ingestion.{info, active, man, SourceCatalog, SourceRecord, SourceType}
use linux_rag_t.Storage.Catalog.{save, load}
use linux_rag_t.Prelude.{
  ◌⊎◌, not, ◌*◌, if◌then◌else◌, ◌&&◌, ltb, ℕ, refl, none, some, inl, inr, ok, err, true, false, [],
  ◌∷◌, Bool, Bool-cases, Result, String, is_nil, ◌≡◌,
}
use linux_rag_t.Storage.Disk.{Disk}
use linux_rag_t.Json.{Codec}
use linux_rag_t.Storage.RoundTrip.{IsCodec}
use linux_rag_t.Storage.Atomic.{load-save}
use linux_rag_t.Storage.{encode_catalog}

abbrev pub bootstrap_source : ℕ → String → SourceType → String → ℕ → String → SourceRecord
bootstrap_source now alias kind location size checksum = record {
  alias = alias;
  type = kind;
  location = location;
  language = "en";
  size_bytes = size;
  last_updated = now;
  status = active;
  checksum = some checksum;
  notes = none;
}

unfoldable pub bootstrap_catalog : ℕ → SourceCatalog
bootstrap_catalog now = record {
  version = 1;
  updated_at = now;
  sources =
      bootstrap_source now "man-pages" man "/usr/share/man" (1048576 * 350) "sha256:bootstrap-man"
      ∷ bootstrap_source now "info-pages" info "/usr/share/info" (1048576 * 120)
          "sha256:bootstrap-info"
      ∷ [];
  snapshots =
      record { alias = "man-pages"; checksum = "sha256:bootstrap-man" }
      ∷ record { alias = "info-pages"; checksum = "sha256:bootstrap-info" }
      ∷ [];
}

-- `catalog.version > 0 and catalog.snapshots`
abbrev pub has_index : SourceCatalog → Bool
has_index catalog = ltb 0 catalog.version && not (is_nil catalog.snapshots)

module _ (c : Codec) (filename : String) (now : ℕ) where
  abbrev pub seed_over : Bool → Disk → Result SourceCatalog → Result (Unit {0}) × Disk
  seed_over force d (err e) = (err e, d)
  seed_over force d (ok catalog) =
      if not force && has_index catalog
      then (ok tt, d)
      else (ok tt, save c filename (bootstrap_catalog now) d)

  unfoldable pub seed_bootstrap_catalog : Bool → Bool → Disk → Result (Unit {0}) × Disk
  seed_bootstrap_catalog disable force d =
      if disable then (ok tt, d) else seed_over force d (load c filename now d)

  module _ (law : IsCodec c)
      (reads : c.loads (c.dumps (encode_catalog c (bootstrap_catalog now)))
        ≡ ok (encode_catalog c (bootstrap_catalog now))) where
    bootstrap-current : ensure_index_current (bootstrap_catalog now) ≡ none
    unfolding ensure_index_current bootstrap_catalog checksum_of
    bootstrap-current = refl

    -- After a start that loads a catalog, seeding not disabled, the catalog on disk is the bootstrap
    -- catalog, which `_ensure_index_current` accepts, if seeding was forced or there was no index;
    -- and otherwise the disk is as before.
    pub seed_bootstrap-current :
        (force : Bool) (d : Disk) (catalog : SourceCatalog)
        → load c filename now d ≡ ok catalog
        → (((not force && has_index catalog) ≡ true)
            × (seed_bootstrap_catalog false force d ≡ (ok tt, d)))
          ⊎ (((not force && has_index catalog) ≡ false)
              × ((e : Disk) × (seed_bootstrap_catalog false force d ≡ (ok tt, e))
                  × (load c filename now e ≡ ok (bootstrap_catalog now))
                  × (ensure_index_current (bootstrap_catalog now) ≡ none)))
    unfolding seed_bootstrap_catalog
    seed_bootstrap-current force d catalog loaded =
        elim (Bool-cases (not force && has_index catalog)) [
          | inl e ↦ inl (e, rw (loaded, e))
          | inr e ↦ inr (
            e,
            (
              save c filename (bootstrap_catalog now) d,
              rw (loaded, e),
              load-save c law filename now (bootstrap_catalog now) reads d,
              bootstrap-current,
            ),
          )
        ]
