-- ===== src/Catalog/Service/View.antt =====
-- What each mutation does to the record that the catalog holds under an alias.
use linux_rag_t.Prelude.{
  sym, Bool-cases, Option-cases, ◌++◌, ◌∙◌, refl, inl, inr, err, Result-cases, ok, Result, ℕ,
  String, ◌==◌, eq_iff, ◌≡◌, List, [], ◌∷◌, Option, none, some, arith, if◌then◌else◌,
}
use linux_rag_t.Prelude.Keyed.{find_key_sound, contains-keys, find_key-append, find_key-sort_by}
use linux_rag_t.Catalog.Service.{
  remove_source, save_removal, save_update, update_source, register, alias_of, create_source,
  withdrawn, new_record, revised, Command, create, update, remove, run, Collaborators, Store,
  find_source, put_record,
}
use linux_rag_t.Catalog.Service.Saved.{
  alias-revised, catalog-remove_source, catalog-update_source, remove_source_unknown,
  update_source_error, update_source_unknown, catalog-create_source, create_source_error,
  new_record-fresh,
}
use linux_rag_t.Prelude.Sort.{sort_by}
use linux_rag_t.Ports.Ingestion.{SourceCreateRequest, SourceUpdateRequest, SourceRecord}

-- The abstract state: a record for each alias that is in use.
abbrev pub view : Store → String → Option SourceRecord
view s alias = find_source alias s.catalog.sources

pub find_source-put_record :
    (a alias : String) (updated : SourceRecord) (l : List SourceRecord)
    → updated.alias ≡ alias
    → find_source a (put_record alias updated l) ≡ (
        if updated.alias == a
        then elim (find_source a l) [ none ↦ none | some _ ↦ some updated ]
        else find_source a l)
find_source-put_record a alias updated [] h = ground arith
find_source-put_record a alias updated (r ∷ l) h = ground (
  arith,
  find_source-put_record a alias updated l h,
  eq_iff r.alias alias,
  eq_iff r.alias a,
  eq_iff updated.alias a,
)

-- The record that a command writes, if it writes one: the specification of the mutations over a
-- finite map from aliases to records.
abbrev or_none : Result SourceRecord → Option SourceRecord
or_none (ok r) = some r
or_none (err e) = none

unfoldable pub written : Collaborators → ℕ → Command → Store → Option SourceRecord
written c now (create request) s = or_none (new_record c now request s.catalog)
written c now (update alias request) s = elim (view s alias) [
  | none ↦ none
  | some current ↦ or_none (revised c now request current)
]
written c now (remove alias reason) s = elim (view s alias) [
  | none ↦ none
  | some current ↦ some (withdrawn now reason current)
]

abbrev pub overwrite :
    Option SourceRecord → (String → Option SourceRecord) → String → Option SourceRecord
overwrite none old a = old a
overwrite (some r) old a = if r.alias == a then some r else old a

module _ (c : Collaborators) (now : ℕ) (s : Store) (a : String) where
  view-create :
      (request : SourceCreateRequest)
      → view (create_source c now request s).1 a
        ≡ overwrite (or_none (new_record c now request s.catalog)) (view s) a
  unfolding register
  view-create request = elim (Result-cases (new_record c now request s.catalog)) [
    | inl (r, e) ↦
        let fresh =
          contains-keys alias_of r.alias s.catalog.sources
            (new_record-fresh c now request s.catalog r e) in
        rw (catalog-create_source c now s request r e, e)
          (rw (find_key-sort_by alias_of a (s.catalog.sources ++ r ∷ []))
            (rw find_key-append (added r fresh)))
    | inr (x, e) ↦ rw (create_source_error c now s request x e, e) refl
  ]
    where
      added :
          (r : SourceRecord)
          → view s r.alias ≡ none
          → elim (view s a) [ some b ↦ some b | none ↦ if r.alias == a then some r else none ]
            ≡ (if r.alias == a then some r else view s a)
      added r fresh = elim (Bool-cases (r.alias == a)) [
        | inl e ↦
            let none_there : view s a ≡ none = rw (sym ((eq_iff r.alias a).0 e)) fresh in
            ground arith
        | inr e ↦ ground arith
      ]

  view-put :
      (alias : String) (current r : SourceRecord) (l : List SourceRecord)
      → find_source alias l ≡ some current
      → r.alias ≡ alias
      → find_source a (sort_by alias_of (put_record alias r l))
        ≡ (if r.alias == a then some r else find_source a l)
  view-put alias current r l found same =
      find_key-sort_by alias_of a (put_record alias r l)
      ∙ find_source-put_record a alias r l same
      ∙ here
    where
      here :
          (if r.alias == a
            then elim (find_source a l) [ none ↦ none | some _ ↦ some r ]
            else find_source a l)
          ≡ (if r.alias == a then some r else find_source a l)
      here = elim (Bool-cases (r.alias == a)) [
        | inl e ↦
            let there : find_source a l ≡ some current =
              rw (sym ((eq_iff r.alias a).0 e) ∙ same) found in
            ground arith
        | inr e ↦ ground arith
      ]

  view-update :
      (alias : String) (request : SourceUpdateRequest)
      → view (update_source c now alias request s).1 a
        ≡ overwrite (written c now (update alias request) s) (view s) a
  unfolding written save_update
  view-update alias request = elim (Option-cases (view s alias)) [
    | inl e ↦ rw (update_source_unknown c now s alias request e, e, written) refl
    | inr (current, found) ↦ elim (Result-cases (revised c now request current)) [
      | inl (r, e) ↦
          let same =
            alias-revised c now request current r e
            ∙ find_key_sound alias_of alias s.catalog.sources current found in
          rw (catalog-update_source c now s alias request current r found e, found, written)
            (rw e (view-put alias current r s.catalog.sources found same))
      | inr (x, e) ↦
          rw (update_source_error c now s alias request current x found e, found, written)
            (rw e refl)
    ]
  ]

  view-remove :
      (alias : String) (reason : Option String)
      → view (remove_source c now alias reason s).1 a
        ≡ overwrite (written c now (remove alias reason) s) (view s) a
  unfolding written save_removal withdrawn
  view-remove alias reason = elim (Option-cases (view s alias)) [
    | inl e ↦ rw (remove_source_unknown c now s alias reason e, e, written) refl
    | inr (current, found) ↦
        rw (catalog-remove_source c now s alias reason current found, found, written)
          (view-put alias current (withdrawn now reason current) s.catalog.sources found
            (find_key_sound alias_of alias s.catalog.sources current found))
  ]

-- The mutations refine a finite map: after a command the catalog holds, under the alias of the
-- record that the command writes, that record, and under each other alias what it held before.
-- A command that writes no record changes nothing that a look-up by alias can see.
pub view-run :
    (c : Collaborators) (now : ℕ) (command : Command) (s : Store) (a : String)
    → view (run c now command s).1 a ≡ overwrite (written c now command s) (view s) a
unfolding run written
view-run c now (create request) s a = view-create c now s a request
view-run c now (update alias request) s a = view-update c now s a alias request
view-run c now (remove alias reason) s a = view-remove c now s a alias reason
