-- ===== src/Catalog/Alias/Slug.antt =====
-- The characters and the length of an alias.
use linux_rag_t.Prelude.{
  leb, le→leb, ◌-◌, String, chars-of_chars, ℕ, ◌≤◌, Char, ◌≡◌, refl, Bool, true, false, ◌||◌, List,
  [], ◌∷◌, ◌++◌, arith, inl, inr, Bool-cases, length, chars, rstrip, lower_chars, All, All-append,
  length-take, length-append, if◌then◌else◌,
}
use linux_rag_t.Prelude.Trim.{All-take, All-lstrip, All-rstrip, length-rstrip}
use linux_rag_t.Prelude.Decimal.{decimal, IsDigit, decimal-IsDigit}
use linux_rag_t.Ports.Ingestion.{SourceType, man, kiwix, info, type_value}
use linux_rag_t.Files.{Files}
use linux_rag_t.Catalog.Alias.{
  alias_max_length, first_is_alnum, numbered, is_plain, is_dash, dash, sanitize, slug_or_source,
  slugify, slice_budget, trim_alias, slug_base,
}

-- `[a-z0-9-]`
abbrev pub IsSlugChar : Char → Type 0
IsSlugChar c = (is_plain c || is_dash c) ≡ true

abbrev pub Slug : List Char → Type 0
Slug = All IsSlugChar

sanitize-Slug : (inside : Bool) (l : List Char) → Slug (sanitize inside l)
unfolding sanitize
sanitize-Slug inside [] = tt
sanitize-Slug inside (c ∷ l) = elim (Bool-cases (is_plain c)) [
  | inl plain ↦ rw plain (ground arith, sanitize-Slug false l)
  | inr other ↦ rw other (dashed inside (sanitize-Slug true l))
]
  where
    dashed :
        (b : Bool)
        → Slug (sanitize true l)
        → Slug (if b then sanitize true l else dash ∷ sanitize true l)
    dashed true h = h
    dashed false h = (refl, h)

slug_or_source-Slug : (l : List Char) → Slug l → Slug (slug_or_source l)
unfolding slug_or_source
slug_or_source-Slug [] h = (refl, (refl, (refl, (refl, (refl, (refl, tt))))))
slug_or_source-Slug (c ∷ l) h = h

slugify-Slug : (value : List Char) → Slug (slugify value)
unfolding slugify
slugify-Slug value = slug_or_source-Slug _ (
    All-rstrip IsSlugChar is_dash _
      (All-lstrip IsSlugChar is_dash _ (sanitize-Slug false (lower_chars value))))

slice_budget-Slug : (alias : List Char) (n : ℕ) → Slug alias → Slug (slice_budget alias n)
unfolding slice_budget
slice_budget-Slug alias n h = elim (Bool-cases (leb n alias_max_length)) [
  | inl e ↦ rw e (All-take IsSlugChar _ alias h)
  | inr e ↦ rw e (All-take IsSlugChar _ alias h)
]

trim_alias-Slug :
    (alias suffix : List Char) → Slug alias → Slug suffix → Slug (trim_alias alias suffix)
unfolding trim_alias
trim_alias-Slug alias suffix h k =
    All-append IsSlugChar _ suffix
      (slug_or_source-Slug _
        (All-rstrip IsSlugChar is_dash _ (slice_budget-Slug alias (length suffix) h)))
      k

digit-IsSlugChar : (c : Char) → IsDigit c → IsSlugChar c
digit-IsSlugChar c h = ground arith

digits-Slug : (l : List Char) → All IsDigit l → Slug l
digits-Slug [] h = tt
digits-Slug (c ∷ l) h = (digit-IsSlugChar c h.0, digits-Slug l h.1)

pub suffix-Slug : (n : ℕ) → Slug (dash ∷ decimal n)
suffix-Slug n = (refl, digits-Slug (decimal n) (decimal-IsDigit n))

type_value-Slug : (t : SourceType) → Slug (chars (type_value t))
type_value-Slug man = ground arith
type_value-Slug kiwix = ground arith
type_value-Slug info = ground arith

prefixed-Slug :
    (slug : List Char) (t : SourceType)
    → Slug slug
    → Slug (if first_is_alnum slug then slug else chars (type_value t) ++ dash ∷ slug)
prefixed-Slug slug t h = elim (Bool-cases (first_is_alnum slug)) [
  | inl e ↦ rw e h
  | inr e ↦ rw e (All-append IsSlugChar _ (dash ∷ slug) (type_value-Slug t) (refl, h))
]

pub slug_base-Slug :
    (files : Files) (location : String) (t : SourceType) → Slug (slug_base files location t)
unfolding slug_base
slug_base-Slug files location t =
    let base = if files.is_file location then files.stem location else files.name location in
    let slug = slugify (chars base) in
    trim_alias-Slug (if first_is_alnum slug then slug else chars (type_value t) ++ dash ∷ slug) []
      (prefixed-Slug slug t (slugify-Slug (chars base))) tt

pub numbered-Slug : (slug : List Char) (n : ℕ) → Slug slug → Slug (chars (numbered slug n))
numbered-Slug slug n h =
    rw (chars-of_chars (trim_alias slug (dash ∷ decimal n)))
      (trim_alias-Slug slug (dash ∷ decimal n) h (suffix-Slug n))

-- Lengths. `slug_or_source` gives at most six characters where nothing was left.
length-slug_or_source :
    (l : List Char) (n : ℕ) → length l ≤ n → 6 ≤ n → length (slug_or_source l) ≤ n
unfolding slug_or_source
length-slug_or_source [] n h k = k
length-slug_or_source (c ∷ l) n h k = h

length-slice_budget : (alias : List Char) (n : ℕ) → n ≤ 25 → length (slice_budget alias n) ≤ 31 - n
unfolding slice_budget
length-slice_budget alias n h = rw (le→leb n 31 (omega arith)) (length-take (31 - n) alias)

pub length-trim_alias :
    (alias suffix : List Char) → length suffix ≤ 25 → length (trim_alias alias suffix) ≤ 31
unfolding trim_alias
length-trim_alias alias suffix h =
    let kept = slice_budget alias (length suffix) in
    let cut = length-slice_budget alias (length suffix) h in
    let shorter = length-rstrip is_dash kept in
    let bound =
      length-slug_or_source (rstrip is_dash kept) (31 - length suffix) (omega arith)
        (omega arith) in
    rw length-append (omega arith)

pub length-slug_base :
    (files : Files) (location : String) (t : SourceType) → length (slug_base files location t) ≤ 31
unfolding slug_base
length-slug_base files location t =
    let base = if files.is_file location then files.stem location else files.name location in
    let slug = slugify (chars base) in
    length-trim_alias (if first_is_alnum slug then slug else chars (type_value t) ++ dash ∷ slug) []
      (omega arith)
