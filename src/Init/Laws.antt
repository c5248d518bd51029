-- ===== src/Init/Laws.antt =====
-- What the bootstrap relies on, and what a step that succeeded is made of.
use linux_rag_t.Init.{
  raised, frozen, locations, aliases, created, Created, Host, and_then, prepared_request,
}
use linux_rag_t.Prelude.{
  chars, ap, contains, refl, none, ok, err, true, false, Bool, Result, String, of_chars, ◌≡◌,
}
use linux_rag_t.Paths.{parse, stem}
use linux_rag_t.Ports.Ingestion.{SourceCatalog, SourceCreateRequest, SourceRecord}

-- What a step that succeeded is made of.
pub and_then-eq-ok :
    {A B S : Type 0} (m : Result A × S) (f : A → S → Result B × S) (b : B) (t : S)
    → and_then m f ≡ (ok b, t)
    → (a : A) × (s : S) × (m ≡ (ok a, s)) × (f a s ≡ (ok b, t))
and_then-eq-ok (ok a, s) f b t e = (a, s, refl, e)
and_then-eq-ok (err x, s) f b t e = absurd (cc (ap (λ y. y.0) e))

-- The aliases and the locations of the one catalog are those of the other.
unfoldable pub Grows : (String → String) → SourceCatalog → SourceCatalog → Type 0
Grows normalize c d =
    ((x : String) → contains (aliases c) x ≡ true → contains (aliases d) x ≡ true)
    × ((x : String)
        → contains (locations normalize c) x ≡ true
        → contains (locations normalize d) x ≡ true)

-- A source was created, also where the catalog was then found frozen.
abbrev pub is_created : Created → Bool
is_created (created r) = true
is_created frozen = true
is_created (raised e) = false

module _ {S : Type 0} (h : Host S) where
  unfoldable pub IsAdded : SourceRecord → SourceCatalog → Type 0
  IsAdded r c =
      (contains (aliases c) r.alias ≡ true)
      × (contains (locations h.normalize_location c) (h.normalize_location r.location) ≡ true)

  abbrev pub Stays : S → S → Type 0
  Stays s t = (u : String) → h.exists u s ≡ true → h.exists u t ≡ true

  -- After the request that a template comes to, did not raise or found the catalog frozen, the
  -- catalog has the stem of the requested location as an alias: that of the new source, or one that
  -- was there. A port that makes a slug of the stem does this where the stem is a slug.
  abbrev pub NamesStem : SourceCreateRequest → Type 0
  NamesStem q =
      (s : S) (d : SourceCatalog)
      → is_created (h.create_source (prepared_request q) s).0 ≡ true
      → h.list_sources (h.create_source (prepared_request q) s).1 ≡ ok d
      → contains (aliases d) (of_chars (stem (parse (chars (prepared_request q).location)))) ≡ true

  -- What the second bootstrap relies on. A directory that was made is there and Stays; the default
  -- configuration is written where it is missing; a port lists what it listed before and the source
  -- that it created, under whatever alias.
  pub record IsHost (has_config : S → Bool) : Type 0 where
    pub made : (t : String) (s : S) → (h.mkdir t s).0 ≡ none → h.exists t (h.mkdir t s).1 ≡ true
    pub mkdir_keeps :
        (t u : String) (s : S) → h.exists u s ≡ true → h.exists u (h.mkdir t s).1 ≡ true
    pub write_keeps :
        (u : String) (s : S) → h.exists u s ≡ true → h.exists u (h.write_default s).1 ≡ true
    pub create_keeps :
        (q : SourceCreateRequest) (u : String) (s : S)
        → h.exists u s ≡ true
        → h.exists u (h.create_source q s).1 ≡ true
    pub writes : (s : S) → (h.write_default s).0 ≡ none → has_config (h.write_default s).1 ≡ true
    pub written : (s : S) → has_config s ≡ true → h.write_default s ≡ (none, s)
    pub config_stays :
        (q : SourceCreateRequest) (s : S)
        → has_config s ≡ true
        → has_config (h.create_source q s).1 ≡ true
    pub lists :
        (q : SourceCreateRequest) (s : S) (c : SourceCatalog)
        → h.list_sources s ≡ ok c
        → (d : SourceCatalog) × (h.list_sources (h.create_source q s).1 ≡ ok d)
          × Grows h.normalize_location c d
    pub adds :
        (q : SourceCreateRequest) (s : S) (r : SourceRecord) (d : SourceCatalog)
        → (h.create_source q s).0 ≡ created r
        → h.list_sources (h.create_source q s).1 ≡ ok d
        → IsAdded r d
