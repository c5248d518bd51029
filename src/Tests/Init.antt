-- ===== src/Tests/Init.antt =====
-- A bootstrap of two sources over a port that keeps its catalog in memory and
-- gives the aliases of the catalog service.
use linux_rag_t.Prelude.{
  inl, inr, Bool-cases, ok_injective, sym, ap, some, false, [], Result, runtime_error, chars,
  contains, ◌+◌, refl, none, ok, err, true, arith, ◌∷◌, Bool, List, String, of_chars, or_empty,
  or_text, value_error, ◌≡◌,
}
use linux_rag_t.Init.Laws.{NamesStem, IsHost, Grows, IsAdded}
use linux_rag_t.Catalog.Alias.{generate_alias, slug_base}
use linux_rag_t.Files.{Files}
use mathlib.Core.Path.{subst}
use linux_rag_t.Init.{
  prepared_request, raised, alias_for_request, locations, aliases, bootstrap, summary, Created,
  InitSummary, apply_alias_to_location, Host, created,
}
use linux_rag_t.Init.Alias.{stem-apply_alias}
use linux_rag_t.Json.{Json, text}
use linux_rag_t.Tests.Storage.{codec_for}
use linux_rag_t.Storage.Catalog.{empty_catalog}
use linux_rag_t.Init.Again.{bootstrap_again}
use linux_rag_t.Transport.Serialize.{serialize_source_record}
use linux_rag_t.Ports.Ingestion.{
  SourceType, SourceCatalog, SourceCreateRequest, SourceRecord, man, kiwix, pending_validation,
}
use linux_rag_t.Paths.{parse, stem}
use linux_rag_t.Prelude.Keyed.{str-eq_refl}

record World : Type 0 where
  dirs : List String
  config : Bool
  catalog : SourceCatalog

-- Every location is that of a file.
abbrev disk : Files
disk = record {
  expand = λ p. p;
  exists = λ p. true;
  is_file = λ p. true;
  stem = λ p. of_chars (stem (parse (chars p)));
  name = λ p. p;
  size = λ p. 0;
}

abbrev record_for : String → SourceCreateRequest → SourceRecord
record_for alias q = record {
  alias = alias;
  type = q.type;
  location = q.location;
  language = or_text (or_empty q.language) "en";
  size_bytes = 0;
  last_updated = 7;
  status = pending_validation;
  checksum = none;
  notes = q.notes;
}

abbrev record_catalog : String → SourceCreateRequest → SourceCatalog → SourceCatalog
record_catalog alias q c = record c {
  version = c.version + 1;
  sources = record_for alias q ∷ c.sources;
}

abbrev added : String → SourceCreateRequest → World → World
added alias q s = record s { catalog = record_catalog alias q s.catalog }

-- The source that is created has an alias of the catalog service.
abbrev named : Result String → SourceCreateRequest → World → Created × World
named (ok alias) q s = (created (record_for alias q), added alias q s)
named (err e) q s = (raised e, s)

abbrev with_config : World → Bool → World
with_config s b = record s { config = b }

abbrev record_or : SourceRecord → Created → SourceRecord
record_or r (created x) = x
record_or r _ = r

abbrev host : Host World
host = record {
  exists = λ t s. contains s.dirs t;
  mkdir = λ t s. (none, record s { dirs = t ∷ s.dirs });
  write_default = λ s. (none, record s { config = true });
  list_sources = λ s. ok s.catalog;
  create_source = λ q s. named (generate_alias disk q.location q.type (aliases s.catalog)) q s;
  normalize_location = λ location. location;
  codec = codec_for (λ s. err (value_error s));
}

abbrev has_config : World → Bool
has_config s = s.config

contains_first : (x : String) (l : List String) → contains (x ∷ l) x ≡ true
contains_first x l = rw (str-eq_refl x) refl

contains_later : (x y : String) (l : List String) → contains l x ≡ true → contains (y ∷ l) x ≡ true
contains_later x y l e = ground arith

named_keeps :
    (m : Result String) (q : SourceCreateRequest) (s : World)
    → ((named m q s).1.dirs ≡ s.dirs) × ((named m q s).1.config ≡ s.config)
named_keeps (ok alias) q s = (refl, refl)
named_keeps (err e) q s = (refl, refl)

named-Grows :
    (m : Result String) (q : SourceCreateRequest) (s : World)
    → Grows (λ l. l) s.catalog (named m q s).1.catalog
unfolding Grows
named-Grows (ok alias) q s = (
  λ x i. contains_later x alias (aliases s.catalog) i,
  λ x i. contains_later x q.location (locations (λ l. l) s.catalog) i,
)
named-Grows (err e) q s = (λ x i. i, λ x i. i)

named-IsAdded :
    (m : Result String) (q : SourceCreateRequest) (s : World) (r : SourceRecord)
    → (named m q s).0 ≡ created r
    → IsAdded host r (named m q s).1.catalog
unfolding IsAdded
named-IsAdded (ok alias) q s r e = rw (sym (ap (record_or r) e)) (
  contains_first alias (aliases s.catalog),
  contains_first q.location (locations (λ l. l) s.catalog),
)
named-IsAdded (err x) q s r e = absurd (cc e)

host-IsHost : IsHost host has_config
host-IsHost = record {
  made = λ t s e. contains_first t s.dirs;
  mkdir_keeps = λ t u s e. contains_later u t s.dirs e;
  write_keeps = λ u s e. e;
  create_keeps = λ q u s e.
      rw (named_keeps (generate_alias disk q.location q.type (aliases s.catalog)) q s).0 e;
  writes = λ s e. refl;
  written = λ s e. ap (λ b. (none, with_config s b)) (sym e);
  config_stays =
      λ q s e. rw (named_keeps (generate_alias disk q.location q.type (aliases s.catalog)) q s).1 e;
  lists = λ q s c e.
      let m = generate_alias disk q.location q.type (aliases s.catalog) in
      (
        (named m q s).1.catalog,
        refl,
        subst (λ x. Grows (λ l. l) x (named m q s).1.catalog) (ok_injective _ _ e)
            (named-Grows m q s),
      );
  adds = λ q s r d e k.
      let m = generate_alias disk q.location q.type (aliases s.catalog) in
      subst (IsAdded host r) (ok_injective _ _ k) (named-IsAdded m q s r e);
}

generate_alias_free :
    (q : SourceCreateRequest) (l : List String)
    → contains l (of_chars (slug_base disk q.location q.type)) ≡ false
    → generate_alias disk q.location q.type l ≡ ok (of_chars (slug_base disk q.location q.type))
unfolding generate_alias
generate_alias_free q l e = rw e refl

-- Where the stem is its own slug, the catalog service gives it or has it.
host-NamesStem :
    (q : SourceCreateRequest)
    → of_chars (slug_base disk (prepared_request q).location q.type)
      ≡ of_chars (stem (parse (chars (prepared_request q).location)))
    → NamesStem host q
unfolding Grows
host-NamesStem q own s d made k =
    let l = aliases s.catalog in
    let asked = prepared_request q in
    let m = generate_alias disk asked.location q.type l in
    rw (sym own, sym (ok_injective _ _ k))
      (elim (Bool-cases (contains l (of_chars (slug_base disk asked.location q.type)))) [
        | inl e ↦ (named-Grows m asked s).0 _ e
        | inr e ↦ rw (generate_alias_free asked l e) (contains_first _ l)
      ])

abbrev template : SourceType → String → SourceCreateRequest
template kind location = record {
  type = kind;
  location = location;
  language = some "en";
  notes = none;
}

abbrev defaults : List SourceCreateRequest
defaults =
    template man "/usr/share/man"
    ∷ template kiwix "/data/linux_wiki.zim"
    ∷ template man "/opt/man"
    ∷ []

abbrev empty_world : World
empty_world = record { dirs = "/etc" ∷ []; config = false; catalog = empty_catalog 5 }

abbrev directories : List String
directories = "/etc" ∷ "/run/ragcli" ∷ []

abbrev checks : List (Result Json)
checks = ok (text "pass") ∷ err (runtime_error "refused") ∷ []

abbrev seeded_world : World
seeded_world = record {
  dirs = "/run/ragcli" ∷ "/etc" ∷ [];
  config = true;
  catalog =
      record_catalog "linux-wiki" (template kiwix "/data/linux-wiki.zim")
        (record_catalog "man-pages" (template man "/usr/share/man-pages") (empty_catalog 5));
}

abbrev first_summary : InitSummary
first_summary =
    summary host directories checks defaults directories
      (serialize_source_record host.codec
          (record_for "man-pages" (template man "/usr/share/man-pages"))
        ∷ serialize_source_record host.codec
            (record_for "linux-wiki" (template kiwix "/data/linux-wiki.zim"))
        ∷ [])
      seeded_world.catalog

first_bootstrap :
    bootstrap host directories checks defaults empty_world ≡ (ok first_summary, seeded_world)
unfolding bootstrap generate_alias linux_rag_t.Init.alias_for_request apply_alias_to_location
    of_chars stem linux_rag_t.Paths.cut_dot parse linux_rag_t.Prelude.Parts.split_on
    linux_rag_t.Paths.with_name linux_rag_t.Paths.suffix linux_rag_t.Paths.print
first_bootstrap = refl

man_slug :
    of_chars (slug_base disk (prepared_request (template man "/usr/share/man")).location man)
    ≡ of_chars (stem (parse (chars (prepared_request (template man "/usr/share/man")).location)))
unfolding slug_base linux_rag_t.Init.alias_for_request apply_alias_to_location of_chars stem
    linux_rag_t.Paths.cut_dot parse linux_rag_t.Prelude.Parts.split_on linux_rag_t.Paths.with_name
    linux_rag_t.Paths.suffix linux_rag_t.Paths.print
man_slug = refl

opt_slug :
    of_chars (slug_base disk (prepared_request (template man "/opt/man")).location man)
    ≡ of_chars (stem (parse (chars (prepared_request (template man "/opt/man")).location)))
unfolding slug_base linux_rag_t.Init.alias_for_request apply_alias_to_location of_chars stem
    linux_rag_t.Paths.cut_dot parse linux_rag_t.Prelude.Parts.split_on linux_rag_t.Paths.with_name
    linux_rag_t.Paths.suffix linux_rag_t.Paths.print
opt_slug = refl

wiki_slug :
    of_chars
      (slug_base disk (prepared_request (template kiwix "/data/linux_wiki.zim")).location kiwix)
    ≡ of_chars
        (stem (parse (chars (prepared_request (template kiwix "/data/linux_wiki.zim")).location)))
unfolding slug_base linux_rag_t.Init.alias_for_request apply_alias_to_location of_chars stem
    linux_rag_t.Paths.cut_dot parse linux_rag_t.Prelude.Parts.split_on linux_rag_t.Paths.with_name
    linux_rag_t.Paths.suffix linux_rag_t.Paths.print
wiki_slug = refl

bootstrap_again_example :
    bootstrap host directories checks defaults seeded_world
    ≡ (ok (record first_summary { seeded_sources = [] }), seeded_world)
bootstrap_again_example =
    bootstrap_again host has_config host-IsHost directories checks defaults empty_world seeded_world
      first_summary
      (
        host-NamesStem (template man "/usr/share/man") man_slug,
        (
          host-NamesStem (template kiwix "/data/linux_wiki.zim") wiki_slug,
          (host-NamesStem (template man "/opt/man") opt_slug, tt),
        ),
      )
      first_bootstrap

-- The location is changed to the alias.
location_changed : apply_alias_to_location "/usr/share/man" "man-pages" ≡ "/usr/share/man-pages"
unfolding apply_alias_to_location of_chars stem linux_rag_t.Paths.cut_dot parse
    linux_rag_t.Prelude.Parts.split_on linux_rag_t.Paths.with_name linux_rag_t.Paths.suffix
    linux_rag_t.Paths.print
location_changed = refl

stem-apply_alias_example :
    of_chars (
      stem (
        parse (
          chars (
            apply_alias_to_location "/data/linux_wiki.zim"
              (alias_for_request (template kiwix "/data/linux_wiki.zim"))))))
    ≡ alias_for_request (template kiwix "/data/linux_wiki.zim")
stem-apply_alias_example = stem-apply_alias (template kiwix "/data/linux_wiki.zim")

abbrev capital : List SourceCreateRequest
capital = template kiwix "/data/Linux_Wiki.zim" ∷ []

-- A stem that is no slug: the alias of the template is "Linux-Wiki", the source gets "linux-wiki", and
-- a second bootstrap adds it again.
seeded_twice :
    let once = (bootstrap host directories checks capital empty_world).1 in
    aliases (bootstrap host directories checks capital once).1.catalog
    ≡ "linux-wiki-2" ∷ "linux-wiki" ∷ []
unfolding bootstrap generate_alias linux_rag_t.Init.alias_for_request apply_alias_to_location
    of_chars stem linux_rag_t.Paths.cut_dot parse linux_rag_t.Prelude.Parts.split_on
    linux_rag_t.Paths.with_name linux_rag_t.Paths.suffix linux_rag_t.Paths.print
seeded_twice = refl
