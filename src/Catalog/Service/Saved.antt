-- ===== src/Catalog/Service/Saved.antt =====
-- What each mutation saves as the catalog, or why it saves nothing.
use linux_rag_t.Prelude.{
  if◌then◌else◌, ◌<>◌, truthy, Bool-cases, bind-eq-ok, or_empty, value_error, Error, Result-cases,
  contains, Option, String, ℕ, refl, none, some, inl, inr, ok, err, false, arith, ◌≡◌,
}
use linux_rag_t.Catalog.Service.{
  withdrawn, alias_of, update_details, save_removal, save_update, find_source, register,
  create_source, remove_source, update_source, Store, plan_chunks, after_plan, log_mutation,
  new_record, revised, Collaborators,
}
use linux_rag_t.Catalog.Alias.{generate_alias}
use linux_rag_t.Catalog.Alias.Fresh.{generate_alias-fresh}
use linux_rag_t.Prelude.Keyed.{keys}
use linux_rag_t.Files.{resolve_location}
use linux_rag_t.Ports.Ingestion.{
  SourceCatalog, SourceRecord, SourceCreateRequest, SourceUpdateRequest,
}

module _ (c : Collaborators) where
  pub catalog-log_mutation :
      (action alias language : String) (details : Option String) (s : Store)
      → (log_mutation c action alias language details s).1.catalog ≡ s.catalog
  unfolding log_mutation
  catalog-log_mutation action alias language details s = refl

  catalog-after_plan :
      (r : SourceRecord) (checksum location action alias language : String)
      (details : Option String) (s : Store)
      → (after_plan r
          (log_mutation c action alias language details)
          (plan_chunks c r checksum location s)).1.catalog
        ≡ s.catalog
  unfolding after_plan plan_chunks
  catalog-after_plan r checksum location action alias language details s =
      elim (Result-cases (c.chunk_builder r.alias checksum location r.type)) [
        | inl (n, e) ↦ rw (e, after_plan) (catalog-log_mutation action alias language details _)
        | inr (x, e) ↦ rw (e, after_plan) refl
      ]

  pub new_record-fresh :
      (now : ℕ) (request : SourceCreateRequest) (catalog : SourceCatalog) (r : SourceRecord)
      → new_record c now request catalog ≡ ok r
      → contains (keys alias_of catalog.sources) r.alias ≡ false
  unfolding new_record
  new_record-fresh now request catalog r h =
      let (location, _, h1) = bind-eq-ok (resolve_location c.files request.location) _ r h in
      let aliases = keys alias_of catalog.sources in
      let generated = generate_alias c.files location request.type aliases in
      let (alias, fresh, h2) = bind-eq-ok generated _ r h1 in
      let (checksum, _, h3) = bind-eq-ok (c.checksum_calculator location) _ r h2 in
      ground (arith, generate_alias-fresh c.files location request.type aliases alias fresh)

  pub alias-revised :
      (now : ℕ) (request : SourceUpdateRequest) (current r : SourceRecord)
      → revised c now request current ≡ ok r
      → r.alias ≡ current.alias
  unfolding revised
  alias-revised now request current r h =
      ground (arith, resolve_location c.files (or_empty request.location))

  module _ (now : ℕ) (s : Store) where
    pub catalog-create_source :
        (request : SourceCreateRequest) (r : SourceRecord)
        → new_record c now request s.catalog ≡ ok r
        → (create_source c now request s).1.catalog ≡ (register now r s).catalog
    unfolding create_source
    catalog-create_source request r e =
        rw (e, create_source)
          (catalog-after_plan r (or_empty r.checksum) r.location "source_add" r.alias r.language
            (some ("location=" <> r.location)) (register now r s))

    pub create_source_error :
        (request : SourceCreateRequest) (x : Error)
        → new_record c now request s.catalog ≡ err x
        → create_source c now request s ≡ (err x, s)
    unfolding create_source
    create_source_error request x e = rw (e, create_source)

    pub catalog-update_source :
        (alias : String) (request : SourceUpdateRequest) (current r : SourceRecord)
        → find_source alias s.catalog.sources ≡ some current
        → revised c now request current ≡ ok r
        → (update_source c now alias request s).1.catalog
          ≡ (save_update now alias current r s).catalog
    unfolding update_source
    catalog-update_source alias request current r found e =
        rw (found, update_source)
          (rw (e, update_source)
            (elim (Bool-cases (truthy request.location)) [
              | inl b ↦ rw b (
                  catalog-after_plan r (or_empty r.checksum) r.location "source_update" alias
                    r.language (update_details request) (save_update now alias current r s))
              | inr b ↦ rw b (
                  catalog-log_mutation "source_update" alias r.language (update_details request)
                    (save_update now alias current r s))
            ]))

    pub update_source_error :
        (alias : String) (request : SourceUpdateRequest) (current : SourceRecord) (x : Error)
        → find_source alias s.catalog.sources ≡ some current
        → revised c now request current ≡ err x
        → update_source c now alias request s ≡ (err x, s)
    unfolding update_source
    update_source_error alias request current x found e =
        rw (found, update_source) (rw (e, update_source))

    pub update_source_unknown :
        (alias : String) (request : SourceUpdateRequest)
        → find_source alias s.catalog.sources ≡ none
        → update_source c now alias request s
          ≡ (err (value_error ("unknown source alias: " <> alias)), s)
    unfolding update_source
    update_source_unknown alias request e = rw (e, update_source)

    pub catalog-remove_source :
        (alias : String) (reason : Option String) (current : SourceRecord)
        → find_source alias s.catalog.sources ≡ some current
        → (remove_source c now alias reason s).1.catalog
          ≡ (save_removal now alias (withdrawn now reason current) s).catalog
    unfolding remove_source
    catalog-remove_source alias reason current e =
        rw (e, remove_source)
          (catalog-log_mutation "source_remove" alias (withdrawn now reason current).language
            (some (if truthy reason then "reason=" <> or_empty reason else "reason=unspecified"))
            (save_removal now alias (withdrawn now reason current) s))

    pub remove_source_unknown :
        (alias : String) (reason : Option String)
        → find_source alias s.catalog.sources ≡ none
        → remove_source c now alias reason s
          ≡ (err (value_error ("unknown source alias: " <> alias)), s)
    unfolding remove_source
    remove_source_unknown alias reason e = rw (e, remove_source)
