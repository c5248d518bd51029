-- ===== src/Init/Alias.antt =====
-- The location that a seed request gets has the alias as its stem.
use linux_rag_t.Paths.Cut.{splits, IsSplit, split_name_at}
use linux_rag_t.Paths.{
  slash, leading, suffix, parse, print, stem, PurePath, before_last, last_part, with_name, is_name,
  split_name, dot, cut_dot, is_dot, is_plain,
}
use linux_rag_t.Prelude.{
  keep, All-append, chars, if◌then◌else◌, ℕ, ◌==◌, All, String, chars-of_chars, eq_iff, of_chars,
  ◌∙◌, sym, ◌&&◌, code, eqb, Option-cases, ap, map, ◌||◌, inl, inr, Bool-cases, Option, is_nil,
  ◌++◌, refl, none, some, true, false, [], arith, ◌∷◌, Bool, Char, List, ◌≡◌,
}
use linux_rag_t.Paths.Printed.{parse-IsPart, parts-print, path_at, IsPart}
use linux_rag_t.Ports.Ingestion.{SourceCreateRequest, SourceType, man, kiwix, info}
use linux_rag_t.Init.{alias_for_request, apply_alias_to_location, renamed, alias_by_type, hyphen}
use linux_rag_t.Prelude.Parts.{split_on, every}
use mathlib.Core.List.{append-nil}

hyphen_dot : (ch : Char) → is_dot (hyphen ch) ≡ is_dot ch
hyphen_dot ch = elim (Bool-cases (eqb (code ch) b'_')) [
  | inl e ↦ rw e (ground arith)
  | inr e ↦ rw e refl
]

hyphen_plain : (ch : Char) → is_plain ch ≡ true → is_plain (hyphen ch) ≡ true
hyphen_plain ch h = elim (Bool-cases (eqb (code ch) b'_')) [ inl e ↦ rw e refl | inr e ↦ rw e h ]

map_plain : (l : List Char) → every is_plain l ≡ true → every is_plain (map hyphen l) ≡ true
map_plain [] h = refl
map_plain (ch ∷ l) h = rw (hyphen_plain ch (ground arith), map_plain l (ground arith)) refl

map_name : (l : List Char) → is_name (map hyphen l) ≡ is_name l
map_name [] = refl
map_name (ch ∷ []) = rw (hyphen_dot ch) refl
map_name (ch ∷ next ∷ l) = refl

map_nil : (l : List Char) → is_nil (map hyphen l) ≡ is_nil l
map_nil [] = refl
map_nil (ch ∷ l) = refl

abbrev map_cut : Option (List Char × List Char) → Option (List Char × List Char)
map_cut none = none
map_cut (some (a, b)) = some (map hyphen a, map hyphen b)

cut_dot-map : (l : List Char) → cut_dot (map hyphen l) ≡ map_cut (cut_dot l)
unfolding cut_dot
cut_dot-map [] = refl
cut_dot-map (ch ∷ l) = elim (Option-cases (cut_dot l)) [
  | inl e ↦ elim (Bool-cases (is_dot ch)) [
    | inl d ↦ rw (cut_dot-map l, e, hyphen_dot ch, d) refl
    | inr d ↦ rw (cut_dot-map l, e, hyphen_dot ch, d) refl
  ]
  | inr ((a, b), e) ↦ rw (cut_dot-map l, e) refl
]

-- Where the last part has no suffix, its stem, with dashes, has none.
split_name-map :
    (l : List Char) → split_name l ≡ (l, []) → split_name (map hyphen l) ≡ (map hyphen l, [])
split_name-map l same = elim (Option-cases (cut_dot l)) [
  | inl e ↦ rw (cut_dot-map l, e) refl
  | inr ((a, b), e) ↦ elim (Bool-cases (is_nil a || is_nil b)) [
    | inl f ↦ rw (cut_dot-map l, e, map_nil a, map_nil b, f) refl
    | inr f ↦
        let split : split_name l ≡ (a, dot ∷ b) = rw (e, f) refl in
        let empty : dot ∷ b ≡ [] = ap (λ x. x.1) (sym split ∙ same) in absurd (ground arith)
  ]
]

every_append : (p : Char → Bool) (a b : List Char) → every p (a ++ b) ≡ (every p a && every p b)
every_append p [] b = refl
every_append p (ch ∷ a) b = rw (every_append p a b) (ground arith)

suffixed_name : (a b : List Char) → is_nil a ≡ false → is_name (a ++ dot ∷ b) ≡ true
suffixed_name [] b h = absurd (ground arith)
suffixed_name (ch ∷ []) b h = refl
suffixed_name (ch ∷ next ∷ a) b h = refl

-- What an alias needs to be in place of the stem of a part.
Fits : List Char → List Char → Type 0
Fits a l =
    (is_nil a ≡ false)
    × (every is_plain a ≡ true)
    × (split_name l ≡ (l, []) → (is_name a ≡ true) × (split_name a ≡ (a, [])))

map-Fits : (l : List Char) → IsPart l → Fits (map hyphen (split_name l).0) l
unfolding Fits IsPart IsSplit
map-Fits l (h, k) = elim (splits l) [
  | inl e ↦
      rw e
        (rw (map_nil l) (ground arith), map_plain l k, λ same. (map_name l ∙ h, split_name-map l e))
  | inr (a, b, e, filled, p, more, same) ↦ rw e (
    map_nil a ∙ filled,
    map_plain a (ground (arith, every_append is_plain a (dot ∷ b), ap (every is_plain) same)),
    λ whole. let empty : dot ∷ b ≡ [] = ap (λ x. x.1) whole in absurd (ground arith),
  )
]

-- The part with its stem replaced.
swapped :
    (a l : List Char)
    → IsPart l
    → Fits a l
    → IsPart (a ++ (split_name l).1) × ((split_name (a ++ (split_name l).1)).0 ≡ a)
unfolding Fits IsPart IsSplit
swapped a l (h, k) (filled, plain, whole) = elim (splits l) [
  | inl e ↦ rw (e, append-nil a) (((whole e).0, plain), ap (λ x. x.0) (whole e).1)
  | inr (c, b, e, _, p, more, same) ↦ rw e (
    (
      suffixed_name a b filled,
      every_append is_plain a (dot ∷ b)
          ∙ rw plain (ground (arith, every_append is_plain c (dot ∷ b), ap (every is_plain) same)),
    ),
    ap (λ x. x.0) (split_name_at a b filled more p),
  )
]

is_name-Fits :
    (a l : List Char)
    → is_nil a ≡ false
    → every is_plain a ≡ true
    → is_name a ≡ true
    → split_name a ≡ (a, [])
    → Fits a l
unfolding Fits
is_name-Fits a l h k n e = (h, k, λ same. (n, e))

alias_by_type-Fits :
    (t : SourceType) (l : List Char) → IsPart l → Fits (alias_by_type t (split_name l).0) l
unfolding Fits cut_dot
alias_by_type-Fits man l h = is_name-Fits (chars "man-pages") l refl refl refl refl
alias_by_type-Fits info l h = is_name-Fits (chars "info-pages") l refl refl refl refl
alias_by_type-Fits kiwix l h =
    let mapped = map-Fits l h in rw (sym (map_nil (split_name l).0) ∙ mapped.0) mapped

last_part-IsPart :
    (part : List Char) (l : List (List Char))
    → All IsPart (part ∷ l)
    → IsPart (last_part (part ∷ l))
last_part-IsPart part [] h = h.0
last_part-IsPart part (next ∷ l) h = last_part-IsPart next l h.1

last_part_new : (l : List (List Char)) (new : List Char) → last_part (l ++ new ∷ []) ≡ new
last_part_new [] new = refl
last_part_new (part ∷ []) new = refl
last_part_new (part ∷ next ∷ l) new = last_part_new (next ∷ l) new

before_last-All : (l : List (List Char)) → All IsPart l → All IsPart (before_last l)
before_last-All [] h = tt
before_last-All (part ∷ []) h = tt
before_last-All (part ∷ next ∷ l) h = (h.0, before_last-All (next ∷ l) h.1)

stem-print :
    (n : ℕ) (l : List (List Char))
    → All IsPart l
    → stem (parse (chars (of_chars (print (path_at n l))))) ≡ (split_name (last_part l)).0
unfolding stem
stem-print n l h = rw (chars-of_chars (print (path_at n l)), parts-print n l h) refl

of_chars_same : (a b : List Char) → (of_chars a == of_chars b) ≡ true → a ≡ b
of_chars_same a b e =
    sym (chars-of_chars a) ∙ ap chars ((eq_iff (of_chars a) (of_chars b)).0 e) ∙ chars-of_chars b

abbrev moved : PurePath → List Char → String
moved p alias =
    if of_chars (stem p) == of_chars alias
    then of_chars (print p)
    else renamed (chars (of_chars alias) ++ suffix p)
        (with_name (chars (of_chars alias) ++ suffix p) p)

stem-moved :
    (n : ℕ) (part : List Char) (l : List (List Char)) (alias : List Char)
    → All IsPart (part ∷ l)
    → Fits alias (last_part (part ∷ l))
    → stem (parse (chars (moved (path_at n (part ∷ l)) alias))) ≡ alias
unfolding stem suffix with_name path_at IsPart
stem-moved n part l alias h fits =
    let p = path_at n (part ∷ l) in
    let new = alias ++ suffix p in
    let good = swapped alias (last_part (part ∷ l)) (last_part-IsPart part l h) fits in
    elim (Bool-cases (of_chars (stem p) == of_chars alias)) [
      | inl e ↦ rw e (stem-print n (part ∷ l) h ∙ of_chars_same (stem p) alias e)
      | inr e ↦
          rw (e, chars-of_chars alias, good.0.0, good.0.1)
            (stem-print n (before_last (part ∷ l) ++ new ∷ [])
                (All-append IsPart _ (new ∷ []) (before_last-All (part ∷ l) h) (good.0, tt))
              ∙ rw (last_part_new (before_last (part ∷ l)) new) good.1)
    ]

stem-moved_by_type :
    (t : SourceType) (n : ℕ) (l : List (List Char))
    → All IsPart l
    → stem (parse (chars (moved (path_at n l) (alias_by_type t (stem (path_at n l))))))
      ≡ alias_by_type t (stem (path_at n l))
unfolding stem suffix with_name path_at parse cut_dot split_on of_chars
stem-moved_by_type man n [] h = refl
stem-moved_by_type info n [] h = refl
stem-moved_by_type kiwix n [] h = refl
stem-moved_by_type t n (part ∷ l) h =
    stem-moved n part l (alias_by_type t (stem (path_at n (part ∷ l)))) h
      (alias_by_type-Fits t (last_part (part ∷ l)) (last_part-IsPart part l h))

-- The stem of the location that a seed request gets is the alias of the template.
pub stem-apply_alias :
    (q : SourceCreateRequest)
    → of_chars (stem (parse (chars (apply_alias_to_location q.location (alias_for_request q)))))
      ≡ alias_for_request q
unfolding apply_alias_to_location alias_for_request parse path_at
stem-apply_alias q = ap of_chars (
    stem-moved_by_type q.type (leading (chars q.location))
      (keep is_name (split_on slash (chars q.location))) (parse-IsPart (chars q.location)))
