-- ===== src/Prelude/Keyed.antt =====
-- Lists of records with a text key: search by key, and keys that are all different.
use Prim.Native.String.{String}
use mathlib.Core.Path.{◌≡◌, refl, ◌∙◌}
use mathlib.Core.Logic.{inl, inr}
use mathlib.Core.Bool.{true, false}
use mathlib.Core.Option.{Option, none, some}
use mathlib.Core.List.{List, [], ◌∷◌, ◌++◌, map}
use native.Mathlib.Omega.{arith}
use text.Mathlib.TextEquality.{eq_iff}
use linux_rag_t.Prelude.Tests.{if◌then◌else◌, Bool-cases}
use linux_rag_t.Prelude.Lists.{find}
use linux_rag_t.Prelude.Text.{◌==◌, contains}
use linux_rag_t.Prelude.Sort.{insert_by, sort_by, str_leb, str_leb_of_eq}

pub str-eq_refl : (s : String) → (s == s) ≡ true
str-eq_refl s = (eq_iff s s).1 refl

pub contains-append :
    (xs ys : List String) (s : String)
    → contains (xs ++ ys) s ≡ (if contains xs s then true else contains ys s)
contains-append [] ys s = refl
contains-append (x ∷ xs) ys s = ground (arith, contains-append xs ys s)

-- No text stands twice in the list.
abbrev pub Distinct : List String → Type 0
Distinct [] = Unit
Distinct (x ∷ xs) = (contains xs x ≡ false) × Distinct xs

pub Distinct-append_one :
    (xs : List String) (s : String) → contains xs s ≡ false → Distinct xs → Distinct (xs ++ s ∷ [])
Distinct-append_one [] s h d = (refl, tt)
Distinct-append_one (x ∷ xs) s h d = (
  rw contains-append (ground (arith, eq_iff x s, eq_iff s x)),
  Distinct-append_one xs s (ground arith) d.1,
)

module _ {ℓ} {A : Type ℓ} (key : A → String) where
  abbrev pub find_key : String → List A → Option A
  find_key s = find (λ a. key a == s)

  abbrev pub keys : List A → List String
  keys = map key

  pub find_key-append :
      (s : String) (l : List A) (a : A)
      → find_key s (l ++ a ∷ [])
        ≡ elim (find_key s l) [ some b ↦ some b | none ↦ if key a == s then some a else none ]
  find_key-append s [] a = refl
  find_key-append s (b ∷ l) a = ground (arith, find_key-append s l a)

  pub contains-keys :
      (s : String) (l : List A) → (contains (keys l) s ≡ false) → find_key s l ≡ none
  contains-keys s [] h = refl
  contains-keys s (a ∷ l) h = ground (arith, contains-keys s l)

  pub find_key-keys : (s : String) (l : List A) → find_key s l ≡ none → contains (keys l) s ≡ false
  find_key-keys s [] h = refl
  find_key-keys s (a ∷ l) h = ground (arith, find_key-keys s l)

  -- What a search finds has the key.
  pub find_key_sound : (s : String) (l : List A) (a : A) → find_key s l ≡ some a → key a ≡ s
  find_key_sound s [] a h = absurd (ground arith)
  find_key_sound s (b ∷ l) a h =
      ground (arith, eq_iff (key b) s, eq_iff (key a) s, find_key_sound s l a)

  find_key-insert_by :
      (s : String) (a : A) (l : List A)
      → find_key s (insert_by key a l) ≡ (if key a == s then some a else find_key s l)
  unfolding insert_by
  find_key-insert_by s a [] = refl
  find_key-insert_by s a (b ∷ l) = ground (
    arith,
    find_key-insert_by s a l,
    eq_iff (key a) s,
    eq_iff (key b) s,
    str_leb_of_eq (key a) (key b),
  )

  -- A stable sort finds the same record for each key.
  pub find_key-sort_by : (s : String) (l : List A) → find_key s (sort_by key l) ≡ find_key s l
  unfolding sort_by
  find_key-sort_by s [] = refl
  find_key-sort_by s (a ∷ l) = rw find_key-insert_by (rw (find_key-sort_by s l))

  contains-insert_by :
      (s : String) (a : A) (l : List A)
      → contains (keys (insert_by key a l)) s ≡ contains (keys (a ∷ l)) s
  unfolding insert_by
  contains-insert_by s a [] = refl
  contains-insert_by s a (b ∷ l) = ground (arith, contains-insert_by s a l)

  pub contains-sort_by :
      (s : String) (l : List A) → contains (keys (sort_by key l)) s ≡ contains (keys l) s
  unfolding sort_by
  contains-sort_by s [] = refl
  contains-sort_by s (a ∷ l) = rw contains-insert_by (rw (contains-sort_by s l))

  Distinct-insert_by :
      (a : A) (l : List A)
      → contains (keys l) (key a) ≡ false
      → Distinct (keys l)
      → Distinct (keys (insert_by key a l))
  unfolding insert_by
  Distinct-insert_by a [] h d = (refl, tt)
  Distinct-insert_by a (b ∷ l) h d = elim (Bool-cases (str_leb (key a) (key b))) [
    | inl e ↦ rw e (h, d)
    | inr e ↦ rw e (
      rw contains-insert_by (ground (arith, eq_iff (key a) (key b), eq_iff (key b) (key a))),
      Distinct-insert_by a l (ground arith) d.1,
    )
  ]

  pub Distinct-sort_by : (l : List A) → Distinct (keys l) → Distinct (keys (sort_by key l))
  unfolding sort_by
  Distinct-sort_by [] d = tt
  Distinct-sort_by (a ∷ l) d =
      Distinct-insert_by a (sort_by key l) (contains-sort_by (key a) l ∙ d.0)
        (Distinct-sort_by l d.1)
