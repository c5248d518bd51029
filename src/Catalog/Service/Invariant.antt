-- ===== src/Catalog/Service/Invariant.antt =====
-- The well-formed catalog, which every mutation keeps.
use linux_rag_t.Ports.Ingestion.{
  SourceCreateRequest, SourceUpdateRequest, SourceRecord, SourceSnapshot,
}
use linux_rag_t.Catalog.Service.{
  remove, update, create, revised, run, withdrawn, Collaborators, Command, create_source,
  new_record, remove_source, save_update, update_source, find_source, save_removal, register, Store,
  alias_of, put_record, put_snapshot, snapshot_alias,
}
use linux_rag_t.Prelude.{
  ap, sym, Option, Result-cases, or_empty, ◌==◌, ◌∙◌, if◌then◌else◌, keep, ℕ, ◌++◌, contains, map,
  refl, none, some, inl, inr, true, false, [], arith, ◌∷◌, Bool-cases, List, Option-cases, String,
  eq_iff, ◌≡◌,
}
use linux_rag_t.Prelude.Keyed.{
  find_key_sound, contains-append, contains-keys, contains-sort_by, find_key-keys, keys, Distinct,
  Distinct-append_one, Distinct-sort_by, find_key,
}
use linux_rag_t.Catalog.Service.Saved.{
  alias-revised, catalog-create_source, catalog-remove_source, catalog-update_source,
  create_source_error, new_record-fresh, remove_source_unknown, update_source_error,
  update_source_unknown,
}
use linux_rag_t.Prelude.Sort.{sort_by, IsSorted, sort_by-IsSorted}

pub record IsConsistent (s : Store) : Type 0 where
  pub sorted : IsSorted alias_of s.catalog.sources
  pub distinct : Distinct (keys alias_of s.catalog.sources)
  pub one_snapshot : Distinct (keys snapshot_alias s.catalog.snapshots)
  pub known :
      (a : String)
      → contains (keys alias_of s.catalog.sources) a ≡ false
      → contains (keys snapshot_alias s.catalog.snapshots) a ≡ false

keys-append {ℓ} :
    {A : Type ℓ} (key : A → String) (l : List A) (a : A)
    → keys key (l ++ a ∷ []) ≡ keys key l ++ key a ∷ []
keys-append key [] a = refl
keys-append key (b ∷ l) a = rw (keys-append key l a) refl

contains-keys_append {ℓ} :
    {A : Type ℓ} (key : A → String) (l : List A) (x : A) (a : String)
    → contains (keys key (l ++ x ∷ [])) a
      ≡ (if contains (keys key l) a then true else contains (key x ∷ []) a)
contains-keys_append key l x a =
    rw (keys-append key l x) (contains-append (keys key l) (key x ∷ []) a)

-- Replacing records by one with the same alias leaves the aliases as they are.
keys-put_record :
    (alias : String) (r : SourceRecord) (l : List SourceRecord)
    → r.alias ≡ alias
    → keys alias_of (put_record alias r l) ≡ keys alias_of l
keys-put_record alias r [] h = refl
keys-put_record alias r (b ∷ l) h =
    ground (arith, keys-put_record alias r l h, eq_iff b.alias alias)

abbrev replaced : SourceSnapshot → List SourceSnapshot → List SourceSnapshot
replaced fresh = map (λ s. if s.alias == fresh.alias then fresh else s)

keys-replaced :
    (fresh : SourceSnapshot) (l : List SourceSnapshot)
    → keys snapshot_alias (replaced fresh l) ≡ keys snapshot_alias l
keys-replaced fresh [] = refl
keys-replaced fresh (b ∷ l) = ground (arith, keys-replaced fresh l, eq_iff b.alias fresh.alias)

module _ (alias checksum : String) (l : List SourceSnapshot) where
  abbrev fresh : SourceSnapshot
  fresh = record { alias = alias; checksum = checksum }

  -- The aliases after a snapshot is put: those before, with the new one behind them if it was none.
  keys-put_snapshot :
      keys snapshot_alias (put_snapshot alias checksum l) ≡ elim (find_key snapshot_alias alias l) [
        | none ↦ keys snapshot_alias l ++ alias ∷ []
        | some _ ↦ keys snapshot_alias l
      ]
  unfolding put_snapshot
  keys-put_snapshot = elim (Option-cases (find_key snapshot_alias alias l)) [
    | inl e ↦
        rw (e, put_snapshot)
          (keys-append snapshot_alias (replaced fresh l) fresh ∙ rw (keys-replaced fresh l) refl)
    | inr (x, e) ↦ rw (e, put_snapshot) (keys-replaced fresh l)
  ]

contains-keep :
    (alias a : String) (l : List SourceSnapshot)
    → contains (keys snapshot_alias l) a ≡ false
    → contains (keys snapshot_alias (keep (λ t. if t.alias == alias then false else true) l)) a
      ≡ false
contains-keep alias a [] h = refl
contains-keep alias a (b ∷ l) h = ground (arith, contains-keep alias a l)

Distinct-keep :
    (alias : String) (l : List SourceSnapshot)
    → Distinct (keys snapshot_alias l)
    → Distinct (keys snapshot_alias (keep (λ t. if t.alias == alias then false else true) l))
Distinct-keep alias [] h = tt
Distinct-keep alias (b ∷ l) h = elim (Bool-cases (b.alias == alias)) [
  | inl e ↦ rw e (Distinct-keep alias l h.1)
  | inr e ↦ rw e (contains-keep alias b.alias l h.0, Distinct-keep alias l h.1)
]

register-IsConsistent :
    (now : ℕ) (r : SourceRecord) (s : Store)
    → contains (keys alias_of s.catalog.sources) r.alias ≡ false
    → IsConsistent s
    → IsConsistent (register now r s)
unfolding register
register-IsConsistent now r s fresh h = record {
  sorted = sort_by-IsSorted alias_of _;
  distinct = Distinct-sort_by alias_of _ (
      rw (keys-append alias_of)
        (Distinct-append_one (keys alias_of s.catalog.sources) r.alias fresh h.distinct));
  one_snapshot =
      rw (keys-append snapshot_alias)
        (Distinct-append_one _ r.alias (h.known r.alias fresh) h.one_snapshot);
  known = λ a free. ground (
    arith,
    contains-sort_by alias_of a (s.catalog.sources ++ r ∷ []),
    contains-keys_append alias_of s.catalog.sources r a,
    contains-keys_append snapshot_alias s.catalog.snapshots
        (record { alias = r.alias; checksum = or_empty r.checksum }) a,
    h.known a,
  );
}

-- The sources after `put_record` and the sort: in order, with the aliases that were there.
module _ (alias : String) (r : SourceRecord) (l : List SourceRecord) (same : r.alias ≡ alias) where
  Distinct-put :
      Distinct (keys alias_of l)
      → Distinct (keys alias_of (sort_by alias_of (put_record alias r l)))
  Distinct-put d =
      Distinct-sort_by alias_of (put_record alias r l) (rw (keys-put_record alias r l same) d)

  contains-put :
      (a : String)
      → contains (keys alias_of (sort_by alias_of (put_record alias r l))) a
        ≡ contains (keys alias_of l) a
  contains-put a =
      contains-sort_by alias_of a (put_record alias r l) ∙ rw (keys-put_record alias r l same) refl

module _ (now : ℕ) (alias : String) (r : SourceRecord) (s : Store) (same : r.alias ≡ alias) where
  removal-IsConsistent : IsConsistent s → IsConsistent (save_removal now alias r s)
  unfolding save_removal
  removal-IsConsistent h = record {
    sorted = sort_by-IsSorted alias_of _;
    distinct = Distinct-put alias r s.catalog.sources same h.distinct;
    one_snapshot = Distinct-keep alias s.catalog.snapshots h.one_snapshot;
    known = λ a free.
        contains-keep alias a s.catalog.snapshots
          (h.known a (sym (contains-put alias r s.catalog.sources same a) ∙ free));
  }

  module _ (current : SourceRecord)
      (found : find_source alias s.catalog.sources ≡ some current) where
    Distinct-put_snapshot :
        (checksum : String)
        → Distinct (keys snapshot_alias s.catalog.snapshots)
        → Distinct (keys snapshot_alias (put_snapshot alias checksum s.catalog.snapshots))
    Distinct-put_snapshot checksum d =
        elim (Option-cases (find_key snapshot_alias alias s.catalog.snapshots)) [
          | inl e ↦ rw (keys-put_snapshot alias checksum s.catalog.snapshots) (
              rw e (
                Distinct-append_one _ alias
                  (find_key-keys snapshot_alias alias s.catalog.snapshots e) d))
          | inr (x, e) ↦ rw (keys-put_snapshot alias checksum s.catalog.snapshots) (rw e d)
        ]

    -- An alias without a source is not the alias of the update.
    not_updated :
        (a : String) → contains (keys alias_of s.catalog.sources) a ≡ false → (alias == a) ≡ false
    not_updated a free = elim (Bool-cases (alias == a)) [
      | inl e ↦
          let missing = contains-keys alias_of a s.catalog.sources free in
          cc (
            found,
            missing,
            ap (λ (t : String). find_source t s.catalog.sources) ((eq_iff alias a).0 e),
          )
      | inr e ↦ e
    ]

    contains-put_snapshot :
        (checksum a : String)
        → contains (keys snapshot_alias s.catalog.snapshots) a ≡ false
        → (alias == a) ≡ false
        → contains (keys snapshot_alias (put_snapshot alias checksum s.catalog.snapshots)) a ≡ false
    contains-put_snapshot checksum a free other =
        rw (keys-put_snapshot alias checksum s.catalog.snapshots)
          (elim (Option-cases (find_key snapshot_alias alias s.catalog.snapshots)) [
            | inl e ↦ rw e (rw contains-append (ground arith))
            | inr (x, e) ↦ rw e free
          ])

    update-IsConsistent : IsConsistent s → IsConsistent (save_update now alias current r s)
    unfolding save_update
    update-IsConsistent h = record {
      sorted = sort_by-IsSorted alias_of _;
      distinct = Distinct-put alias r s.catalog.sources same h.distinct;
      one_snapshot = Distinct-put_snapshot _ h.one_snapshot;
      known = λ a free.
          let before = sym (contains-put alias r s.catalog.sources same a) ∙ free in
          contains-put_snapshot _ a (h.known a before) (not_updated a before);
    }

-- Only the catalog of a store matters.
transfer : {s t : Store} → t.catalog ≡ s.catalog → IsConsistent s → IsConsistent t
transfer {s} {t} e h = record {
  sorted = rw e h.sorted;
  distinct = rw e h.distinct;
  one_snapshot = rw e h.one_snapshot;
  known = rw e h.known;
}

module _ (c : Collaborators) (now : ℕ) (s : Store) (h : IsConsistent s) where
  create_source-IsConsistent :
      (request : SourceCreateRequest) → IsConsistent (create_source c now request s).1
  create_source-IsConsistent request = elim (Result-cases (new_record c now request s.catalog)) [
    | inl (r, e) ↦
        transfer (catalog-create_source c now s request r e)
          (register-IsConsistent now r s (new_record-fresh c now request s.catalog r e) h)
    | inr (x, e) ↦ rw (create_source_error c now s request x e) h
  ]

  update_source-IsConsistent :
      (alias : String) (request : SourceUpdateRequest)
      → IsConsistent (update_source c now alias request s).1
  update_source-IsConsistent alias request =
      elim (Option-cases (find_source alias s.catalog.sources)) [
        | inl e ↦ rw (update_source_unknown c now s alias request e) h
        | inr (current, found) ↦ elim (Result-cases (revised c now request current)) [
          | inl (r, e) ↦ transfer (catalog-update_source c now s alias request current r found e) (
              update-IsConsistent now alias r s
                (alias-revised c now request current r e
                  ∙ find_key_sound alias_of alias s.catalog.sources current found)
                current found h)
          | inr (x, e) ↦ rw (update_source_error c now s alias request current x found e) h
        ]
      ]

  remove_source-IsConsistent :
      (alias : String) (reason : Option String)
      → IsConsistent (remove_source c now alias reason s).1
  unfolding withdrawn
  remove_source-IsConsistent alias reason =
      elim (Option-cases (find_source alias s.catalog.sources)) [
        | inl e ↦ rw (remove_source_unknown c now s alias reason e) h
        | inr (current, found) ↦
            transfer (catalog-remove_source c now s alias reason current found) (
              removal-IsConsistent now alias (withdrawn now reason current) s
                (find_key_sound alias_of alias s.catalog.sources current found) h)
      ]

pub run-IsConsistent :
    (c : Collaborators) (now : ℕ) (command : Command) (s : Store)
    → IsConsistent s
    → IsConsistent (run c now command s).1
unfolding run
run-IsConsistent c now (create request) s h = create_source-IsConsistent c now s h request
run-IsConsistent c now (update alias request) s h =
    update_source-IsConsistent c now s h alias request
run-IsConsistent c now (remove alias reason) s h = remove_source-IsConsistent c now s h alias reason

-- A history of mutations, each with its collaborators and its time.
pub data Reachable (s : Store) : Store → Type 0 where
  start : Reachable s s
  mutate :
      {t : Store} (c : Collaborators) (now : ℕ) (command : Command)
      → Reachable s t
      → Reachable s (run c now command t).1

-- What `CatalogStorage.load` gives where no catalog was saved.
abbrev pub empty_store : Store
empty_store = record {
  catalog = record { version = 0; updated_at = 0; sources = []; snapshots = [] };
  audit = record { path = "audit.log"; lines = [] };
  plans = [];
}

empty_store-IsConsistent : IsConsistent empty_store
empty_store-IsConsistent = record {
  sorted = tt;
  distinct = tt;
  one_snapshot = tt;
  known = λ a h. refl;
}

Reachable-IsConsistent_from : {s t : Store} → IsConsistent s → Reachable s t → IsConsistent t
Reachable-IsConsistent_from h start = h
Reachable-IsConsistent_from h (mutate {t} c now command r) =
    run-IsConsistent c now command t (Reachable-IsConsistent_from h r)

-- Whatever is added, updated and removed, from the empty catalog on, in whatever order and with
-- whatever failures between, the catalog stays in the order of the aliases, with no alias twice,
-- at most one snapshot for an alias, and no snapshot without its source.
pub Reachable-IsConsistent : (t : Store) → Reachable empty_store t → IsConsistent t
Reachable-IsConsistent t r = Reachable-IsConsistent_from empty_store-IsConsistent r
