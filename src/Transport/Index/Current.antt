-- ===== src/Transport/Index/Current.antt =====
-- What the check means.
use linux_rag_t.Prelude.{
  ◌∙◌, length-map, or_empty, none, sym, ◌==◌, ◌↔◌, ◌≢◌, ◌≤◌, contains, length, ◌<◌, refl, some, inl,
  inr, true, [], arith, ◌∷◌, All, Bool-cases, List, String, eq_iff, ◌≡◌,
}
use linux_rag_t.Transport.Index.{
  ensure_index_current, same_set, check_checksums, subset, active_sources, checksum_of, to_set,
}
use linux_rag_t.Prelude.Keyed.{keys, Distinct}
use linux_rag_t.Catalog.Service.{alias_of, snapshot_alias}
use linux_rag_t.Ports.Ingestion.{SourceCatalog, SourceRecord, SourceSnapshot}

-- Each active source has a checksum, and the snapshot of its alias has the same.
abbrev pub Matches : List SourceSnapshot → SourceRecord → Type 0
Matches snapshots r =
    (c : String) × (r.checksum ≡ some c) × (checksum_of snapshots r.alias ≡ some c)

pub record IsCurrent (catalog : SourceCatalog) : Type 0 where
  pub built : 0 < catalog.version
  pub some_snapshot : catalog.snapshots ≢ []
  pub one_each : Distinct (keys snapshot_alias catalog.snapshots)
  pub aligned :
      (a : String)
      → contains (keys snapshot_alias catalog.snapshots) a
        ≡ contains (keys alias_of (active_sources catalog.sources)) a
  pub unchanged : All (Matches catalog.snapshots) (active_sources catalog.sources)

subset_sound :
    (xs ys : List String) (a : String)
    → subset xs ys ≡ true
    → contains xs a ≡ true
    → contains ys a ≡ true
unfolding subset
subset_sound [] ys a h m = absurd (ground arith)
subset_sound (x ∷ xs) ys a h m = elim (Bool-cases (x == a)) [
  | inl e ↦ rw (← (eq_iff x a).0 e) (ground arith)
  | inr e ↦ subset_sound xs ys a (ground arith) (ground arith)
]

subset_complete :
    (xs ys : List String)
    → ((a : String) → contains xs a ≡ true → contains ys a ≡ true)
    → subset xs ys ≡ true
unfolding subset
subset_complete [] ys h = refl
subset_complete (x ∷ xs) ys h =
    ground
      (arith, h x (ground (arith, eq_iff x x)), subset_complete xs ys (λ a m. h a (ground arith)))

length-to_set : (xs : List String) → length (to_set xs) ≤ length xs
unfolding to_set
length-to_set [] = omega arith
length-to_set (x ∷ xs) = ground (arith, length-to_set xs)

-- `to_set` leaves out a text only where the rest has it.
contains-to_set : (xs : List String) (a : String) → contains (to_set xs) a ≡ contains xs a
unfolding to_set
contains-to_set [] a = refl
contains-to_set (x ∷ xs) a = elim (Bool-cases (x == a)) [
  | inl e ↦ rw (← (eq_iff x a).0 e) (ground (arith, eq_iff x x, contains-to_set xs x))
  | inr e ↦ ground (arith, contains-to_set xs a)
]

Distinct-to_set : (xs : List String) → (length (to_set xs) ≡ length xs) ↔ Distinct xs
unfolding to_set
Distinct-to_set [] = (λ e. tt, λ e. refl)
Distinct-to_set (x ∷ xs) = (
  λ e. (
    ground (arith, contains-to_set xs x, length-to_set xs),
    (Distinct-to_set xs).0 (ground (arith, length-to_set xs)),
  ),
  λ d. ground (arith, contains-to_set xs x, d.0, (Distinct-to_set xs).1 d.1),
)

check_checksums_sound :
    (snapshots : List SourceSnapshot) (l : List SourceRecord)
    → check_checksums snapshots l ≡ none
    → All (Matches snapshots) l
unfolding check_checksums
check_checksums_sound snapshots [] h = tt
check_checksums_sound snapshots (r ∷ l) h = (
  (
    or_empty r.checksum,
    ground (arith, eq_iff (or_empty (checksum_of snapshots r.alias)) (or_empty r.checksum)),
    ground (arith, eq_iff (or_empty (checksum_of snapshots r.alias)) (or_empty r.checksum)),
  ),
  check_checksums_sound snapshots l (ground arith),
)

check_checksums_complete :
    (snapshots : List SourceSnapshot) (l : List SourceRecord)
    → All (Matches snapshots) l
    → check_checksums snapshots l ≡ none
unfolding check_checksums
check_checksums_complete snapshots [] h = refl
check_checksums_complete snapshots (r ∷ l) ((c, e, f), h) =
    ground (arith, e, f, eq_iff c c, check_checksums_complete snapshots l h)

same_set-contains :
    (xs ys : List String) → (same_set xs ys ≡ true) ↔ ((a : String) → contains xs a ≡ contains ys a)
same_set-contains xs ys = (
  λ h a. ground (arith, subset_sound xs ys a (ground arith), subset_sound ys xs a (ground arith)),
  λ h.
      ground (
        arith,
        subset_complete xs ys (λ a m. sym (h a) ∙ m),
        subset_complete ys xs (λ a m. h a ∙ m),
      ),
)

-- `_ensure_index_current` raises nothing exactly if the catalog was built at least once, it has a
-- snapshot, no two snapshots have one alias, their aliases are those of the active sources, and each
-- active source has a checksum, which is the one of its snapshot.
pub ensure_index_current_iff :
    (catalog : SourceCatalog) → (ensure_index_current catalog ≡ none) ↔ IsCurrent catalog
unfolding ensure_index_current
ensure_index_current_iff catalog = (
  λ h. record {
    built = ground arith;
    some_snapshot = λ e. absurd (ground (arith, e));
    one_each =
        (Distinct-to_set (keys snapshot_alias catalog.snapshots)).0
          (ground (arith, length-map snapshot_alias catalog.snapshots));
    aligned =
        (same_set-contains (keys snapshot_alias catalog.snapshots)
            (keys alias_of (active_sources catalog.sources))).0
          (ground arith);
    unchanged =
        check_checksums_sound catalog.snapshots (active_sources catalog.sources) (ground arith);
  },
  λ c. ground (
    arith,
    c.built,
    c.some_snapshot,
    length-map snapshot_alias catalog.snapshots,
    (Distinct-to_set (keys snapshot_alias catalog.snapshots)).1 c.one_each,
    (same_set-contains (keys snapshot_alias catalog.snapshots)
          (keys alias_of (active_sources catalog.sources))).1
        c.aligned,
    check_checksums_complete catalog.snapshots (active_sources catalog.sources) c.unchanged,
  ),
)
