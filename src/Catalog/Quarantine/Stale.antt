-- ===== src/Catalog/Quarantine/Stale.antt =====
-- What a quarantine means for the index.
use linux_rag_t.Prelude.{
  ◌<>◌, truthy, or_empty, inl, inr, Bool-cases, ◌∙◌, ◌≢◌, contains, ◌+◌, ℕ, ◌==◌, if◌then◌else◌,
  refl, none, some, ok, true, arith, List, String, eq_iff, ◌≡◌,
}
use linux_rag_t.Catalog.Service.View.{find_source-put_record}
use linux_rag_t.Prelude.Filtered.{contains-find_key}
use linux_rag_t.Prelude.Keyed.{find_key_sound, keys, Distinct}
use linux_rag_t.Ports.Ingestion.{quarantined, is_active, SourceCatalog, SourceRecord}
use linux_rag_t.Transport.Index.Current.{ensure_index_current_iff}
use linux_rag_t.Catalog.Quarantine.{quarantine, quarantine_record}
use linux_rag_t.Transport.Index.{ensure_index_current}
use linux_rag_t.Catalog.Service.{alias_of, find_source, put_record, snapshot_alias}

-- After a quarantine the alias finds the quarantined record.
find_source-quarantined :
    (alias a : String) (u r : SourceRecord) (l : List SourceRecord)
    → find_source alias l ≡ some r
    → u.alias ≡ alias
    → find_source a (put_record alias u l) ≡ (if alias == a then some u else find_source a l)
find_source-quarantined alias a u r l h same =
    find_source-put_record a alias u l same ∙ elim (Bool-cases (alias == a)) [
      | inr e ↦ ground (arith, e, same, eq_iff u.alias a, eq_iff alias a)
      | inl e ↦ rw (same, e) (ground (arith, h, (eq_iff alias a).0 e))
    ]

-- The quarantine of a known source saves the next version, stamped with the time: in it this source
-- has the status `quarantined`, the time, and the reason behind its notes, if it has any, on a line of
-- its own, and is else as before; all others and the snapshots are as before. The audit entry has the
-- time, the action "source_quarantine", the source, the status "failure" and the reason. If
-- the aliases are different and the source has a snapshot, `_ensure_index_current` raises on the new
-- catalog.
pub quarantine_stale :
    (now : ℕ) (alias reason : String) (catalog : SourceCatalog) (r : SourceRecord)
    → find_source alias catalog.sources ≡ some r
    → (new : SourceCatalog) × (quarantine now alias reason catalog
        ≡ ok (
          new,
          record {
            timestamp = now;
            action = "source_quarantine";
            target = alias;
            status = "failure";
            message = reason;
          },
        ))
      × (new.updated_at ≡ now)
      × (new.version ≡ catalog.version + 1)
      × (new.snapshots ≡ catalog.snapshots)
      × ((a : String)
          → find_source a new.sources ≡ (
              if alias == a
              then some (record r {
                status = quarantined;
                last_updated = now;
                notes =
                    some (if truthy r.notes then or_empty r.notes <> "\n" <> reason else reason);
              })
              else find_source a catalog.sources))
      × (Distinct (keys alias_of new.sources)
          → contains (keys snapshot_alias catalog.snapshots) alias ≡ true
          → ensure_index_current new ≢ none)
unfolding quarantine
quarantine_stale now alias reason catalog r h =
    let u = quarantine_record now reason r in
    let same : u.alias ≡ alias = find_key_sound alias_of alias catalog.sources r h in
    let new : SourceCatalog = record catalog {
      version = catalog.version + 1;
      updated_at = now;
      sources = put_record alias u catalog.sources;
    } in
    let found = λ (a : String). find_source-quarantined alias a u r catalog.sources h same in
    (
      new,
      rw h refl,
      refl,
      refl,
      refl,
      found,
      λ d s e. absurd (
          ground (
            arith,
            s,
            ((ensure_index_current_iff new).0 e).aligned alias,
            contains-find_key alias_of (λ r. is_active r.status)
                (put_record alias u catalog.sources) alias d,
            found alias,
            eq_iff alias alias,
          )),
    )
