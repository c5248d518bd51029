-- ===== src/Transport/Index.antt =====
-- `_ensure_index_current` of backend/src/adapters/transport/handlers/router.py: whether the snapshots
-- of a catalog match its active sources. `none` means that nothing is raised. In a message `!r` is
-- written as quotes round the alias, which is exact for an alias without quotes and backslashes.
pub mod Current
use linux_rag_t.Prelude.{
  length, eqb, not, ◌||◌, contains, leb, ◌==◌, if◌then◌else◌, keep, ◌&&◌, ◌<>◌, none, some, true,
  false, [], ◌∷◌, Bool, List, Option, String, is_nil, ◌≡◌,
}
use linux_rag_t.Prelude.Keyed.{keys}
use linux_rag_t.Transport.Errors.{TransportError, index_unavailable}
use linux_rag_t.Catalog.Service.{alias_of, snapshot_alias}
use linux_rag_t.Ports.Ingestion.{SourceCatalog, SourceRecord, SourceSnapshot, is_active}

abbrev pub active_sources : List SourceRecord → List SourceRecord
active_sources = keep (λ r. is_active r.status)

-- A Python set of texts: one occurrence of each.
unfoldable pub to_set : List String → List String
to_set [] = []
to_set (x ∷ xs) = let rest = to_set xs in if contains rest x then rest else x ∷ rest

unfoldable pub subset : List String → List String → Bool
subset [] ys = true
subset (x ∷ xs) ys = let rest = subset xs ys in if contains ys x then rest else false

abbrev pub same_set : List String → List String → Bool
same_set xs ys = subset xs ys && subset ys xs

-- `{snapshot.alias: snapshot.checksum for …}.get(alias)`: the last entry of a key stays.
unfoldable pub checksum_of : List SourceSnapshot → String → Option String
checksum_of [] alias = none
checksum_of (s ∷ l) alias = elim (checksum_of l alias) [
  | some c ↦ some c
  | none ↦ if s.alias == alias then some s.checksum else none
]

abbrev quoted : String → String
quoted alias = "'" <> alias <> "'"

-- The loop over the active sources.
unfoldable pub check_checksums : List SourceSnapshot → List SourceRecord → Option TransportError
check_checksums snapshots [] = none
check_checksums snapshots (r ∷ l) =
    let rest = check_checksums snapshots l in
    elim r.checksum [
      | none ↦ some (
          index_unavailable "INDEX_STALE"
            ("Source " <> quoted r.alias <> " is active without a recorded checksum.")
            "Run ragadmin reindex to validate and snapshot active sources.")
      | some checksum ↦ elim (checksum_of snapshots r.alias) [
        | none ↦ some (changed r.alias)
        | some c ↦ if c == checksum then rest else some (changed r.alias)
      ]
    ]
  where
    changed : String → TransportError
    changed alias =
        index_unavailable "INDEX_STALE"
          ("Source " <> quoted alias <> " has changed since the last index build.")
          "Run ragadmin reindex to rebuild the index with the latest sources."

unfoldable pub ensure_index_current : SourceCatalog → Option TransportError
unfolding to_set subset check_checksums
ensure_index_current catalog =
    let snapshot_aliases = keys snapshot_alias catalog.snapshots in
    let active = active_sources catalog.sources in
    if leb catalog.version 0 || is_nil catalog.snapshots
    then some (
        index_unavailable "INDEX_MISSING" "No content index is available for the current catalog."
          "Run ragadmin reindex to build the knowledge index before continuing.")
    else if not (eqb (length (to_set snapshot_aliases)) (length catalog.snapshots))
    then some (
        index_unavailable "INDEX_STALE" "Duplicate index snapshots detected for the catalog."
          "Run ragadmin reindex to rebuild the index with a clean snapshot set.")
    else if not (same_set snapshot_aliases (keys alias_of active))
    then some (
        index_unavailable "INDEX_STALE" "Index snapshots do not align with active catalog sources."
          "Run ragadmin reindex to align the index with the current catalog.")
    else check_checksums catalog.snapshots active
