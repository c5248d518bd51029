-- ===== src/Catalog/Alias.antt =====
-- Aliases of new sources: `_slugify`, `_trim_alias` and `_generate_alias`.
pub mod Slug
pub mod Fresh
use linux_rag_t.Prelude.{
  ℕ, ◌+◌, ◌-◌, Char, code, String, Bool, true, false, ◌&&◌, ◌||◌, List, [], ◌∷◌, ◌++◌, Option, none,
  some, Result, ok, err, runtime_error, ltb, leb, eqb, if◌then◌else◌, length, take, is_nil, chars,
  of_chars, lstrip, rstrip, lower_chars, contains,
}
use linux_rag_t.Prelude.Decimal.{decimal}
use linux_rag_t.Prelude.Search.{first_free}
use linux_rag_t.Ports.Ingestion.{SourceType, type_value}
use linux_rag_t.Files.{Files}

abbrev pub alias_max_length : ℕ
alias_max_length = 31

-- `[a-z0-9]`
abbrev pub is_plain : Char → Bool
is_plain c = let n = code c in (leb b'a' n && leb n b'z') || (leb b'0' n && leb n b'9')

abbrev pub is_dash : Char → Bool
is_dash c = eqb (code c) b'-'

abbrev pub dash : Char
dash = "-"

-- `_ALIAS_SANITIZER.sub("-", …)`: each run of other characters becomes one dash. The flag says
-- that the character before was in such a run.
sanitize : Bool → List Char → List Char
sanitize inside [] = []
sanitize inside (c ∷ l) =
    let plain = c ∷ sanitize false l in
    let other = sanitize true l in
    if is_plain c then plain else if inside then other else dash ∷ other

slug_or_source : List Char → List Char
slug_or_source slug = if is_nil slug then chars "source" else slug

unfoldable pub slugify : List Char → List Char
unfolding sanitize slug_or_source lower_chars lstrip rstrip
slugify value =
    slug_or_source (rstrip is_dash (lstrip is_dash (sanitize false (lower_chars value))))

-- `alias[:budget]` for `budget = 31 - len(suffix)`, which counts from the end if it is negative.
slice_budget : List Char → ℕ → List Char
slice_budget alias suffix_length =
    if leb suffix_length alias_max_length
    then take (alias_max_length - suffix_length) alias
    else take (length alias - (suffix_length - alias_max_length)) alias

unfoldable pub trim_alias : List Char → List Char → List Char
unfolding slice_budget slug_or_source rstrip
trim_alias alias suffix =
    slug_or_source (rstrip is_dash (slice_budget alias (length suffix))) ++ suffix

-- `str.isalnum` of the first character, on a text of ASCII characters.
abbrev first_is_alnum : List Char → Bool
first_is_alnum [] = true
first_is_alnum (c ∷ l) = is_plain c || (leb b'A' (code c) && leb (code c) b'Z')

-- The candidate with the suffix `-n`.
abbrev pub numbered : List Char → ℕ → String
numbered slug n = of_chars (trim_alias slug (dash ∷ decimal n))

unfoldable pub slug_base : Files → String → SourceType → List Char
unfolding slugify trim_alias
slug_base files location source_type =
    let base = if files.is_file location then files.stem location else files.name location in
    let slug = slugify (chars base) in
    trim_alias (if first_is_alnum slug then slug else chars (type_value source_type) ++ dash ∷ slug)
      []

-- The fuel is one more than there are aliases.
unfoldable pub generate_alias : Files → String → SourceType → List String → Result String
unfolding slug_base first_free of_chars decimal
generate_alias files location source_type existing =
    let slug = slug_base files location source_type in
    let search = first_free (numbered slug) (length existing + 1) 2 existing in
    if contains existing (of_chars slug)
    then elim search [
      | some candidate ↦ ok candidate
      | none ↦ err (runtime_error "unable to generate unique alias after exhausting suffixes")
    ]
    else ok (of_chars slug)
