-- ===== src/Catalog/Alias/Fresh.antt =====
-- `_generate_alias` ends, and its alias is new.
use linux_rag_t.Prelude.{
  ℕ, ◌+◌, ◌≤◌, ◌<◌, ◌^◌, Char, String, ◌≡◌, refl, sym, ap, ◌∙◌, false, List, ◌∷◌, some, arith, inl,
  inr, Bool-cases, length, chars, of_chars, chars-of_chars, contains, ok,
}
use linux_rag_t.Prelude.Decimal.{decimal, decimal_injective, decimal-IsDigit, length-decimal}
use linux_rag_t.Prelude.Segment.{dashed_injective}
use linux_rag_t.Prelude.Search.{first_free, first_free_sound, first_free_total}
use linux_rag_t.Ports.Ingestion.{SourceType}
use linux_rag_t.Files.{Files}
use linux_rag_t.Catalog.Alias.{dash, trim_alias, numbered, slug_base, generate_alias}
use linux_rag_t.Catalog.Alias.Slug.{
  Slug, length-slug_base, slug_base-Slug, numbered-Slug, length-trim_alias,
}

-- Different suffixes give different candidates, also where the base is cut differently.
pub numbered_injective : (slug : List Char) (m n : ℕ) → numbered slug m ≡ numbered slug n → m ≡ n
unfolding trim_alias
numbered_injective slug m n e = decimal_injective m n (
    dashed_injective _ _ (decimal m) (decimal n) (decimal-IsDigit m) (decimal-IsDigit n) (
      sym (chars-of_chars (trim_alias slug (dash ∷ decimal m)))
      ∙ ap chars e
      ∙ chars-of_chars (trim_alias slug (dash ∷ decimal n))))

-- What an alias promises: a new text of at most 31 characters out of `[a-z0-9-]`.
pub record IsFreshAlias (existing : List String) (alias : String) : Type 0 where
  pub fresh : contains existing alias ≡ false
  pub short : length (chars alias) ≤ 31
  pub slug : Slug (chars alias)

abbrev many : ℕ
many = 10 ^ 23

module _ (slug : List Char) (existing : List String) (is_slug : Slug slug) where
  numbered-IsFreshAlias :
      (s : String)
      → length existing < many
      → first_free (numbered slug) (length existing + 1) 2 existing ≡ some s
      → IsFreshAlias existing s
  numbered-IsFreshAlias s few found =
      let (free, k, low, high, same) =
        first_free_sound (numbered slug) (numbered_injective slug) (length existing + 1) 2 existing
          s found in
      record {
        fresh = free;
        short = rw same (
            rw chars-of_chars (
              length-trim_alias slug (dash ∷ decimal k)
                (omega (arith, length-decimal k 23 (omega arith)))));
        slug = rw same (numbered-Slug slug k is_slug);
      }

-- With fewer than 10 ^ 23 sources `_generate_alias` returns an alias, which no source has, of at
-- most 31 characters, all of them lower-case letters, digits or dashes.
pub generate_alias_fresh :
    (files : Files) (location : String) (t : SourceType) (existing : List String)
    → length existing < 10 ^ 23
    → (alias : String) × (generate_alias files location t existing ≡ ok alias)
      × IsFreshAlias existing alias
unfolding generate_alias
generate_alias_fresh files location t existing few =
    let slug = slug_base files location t in
    elim (Bool-cases (contains existing (of_chars slug))) [
      | inl taken ↦
          let (s, found) =
            first_free_total (numbered slug) (numbered_injective slug) (length existing + 1) 2
              existing (omega arith) in
          (
            s,
            rw taken (rw (found, generate_alias) refl),
            numbered-IsFreshAlias slug existing (slug_base-Slug files location t) s few found,
          )
      | inr free ↦ (
        of_chars slug,
        rw free refl,
        record {
          fresh = free;
          short = rw chars-of_chars (length-slug_base files location t);
          slug = rw chars-of_chars (slug_base-Slug files location t);
        },
      )
    ]

-- Whatever alias is returned, no source had it.
pub generate_alias-fresh :
    (files : Files) (location : String) (t : SourceType) (existing : List String) (alias : String)
    → generate_alias files location t existing ≡ ok alias
    → contains existing alias ≡ false
unfolding generate_alias
generate_alias-fresh files location t existing alias h =
    let slug = slug_base files location t in
    ground (
      arith,
      first_free_sound (numbered slug) (numbered_injective slug) (length existing + 1) 2 existing
          alias,
    )
