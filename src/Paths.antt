-- ===== src/Paths.antt =====
-- What `pathlib` computes from the text of a path alone, on a POSIX system. The parts are those
-- behind the root.
pub mod Printed
pub mod Cut
use linux_rag_t.Prelude.{
  ◌++◌, code, ◌&&◌, ◌+◌, ◌||◌, eqb, if◌then◌else◌, keep, not, ℕ, none, some, false, [], ◌∷◌, Bool,
  Char, List, Option, is_nil, ◌≡◌,
}
use linux_rag_t.Prelude.Parts.{every, is_sep, join_on, split_on}

pub record PurePath : Type 0 where
  pub root : List Char
  pub parts : List (List Char)

abbrev pub slash : Char
slash = "/"

abbrev pub dot : Char
dot = "."

abbrev pub is_dot : Char → Bool
is_dot ch = eqb (code ch) b'.'

abbrev pub is_single_dot : List Char → Bool
is_single_dot [] = false
is_single_dot (ch ∷ []) = is_dot ch
is_single_dot (ch ∷ next ∷ l) = false

abbrev pub is_plain : Char → Bool
is_plain ch = not (is_sep slash ch)

abbrev pub is_name : List Char → Bool
is_name l = not (is_nil l) && not (is_single_dot l)

-- Two slashes at the front are kept, three or more are one.
abbrev pub root_for : ℕ → List Char
root_for n = if eqb n 0 then [] else if eqb n 2 then slash ∷ slash ∷ [] else slash ∷ []

abbrev pub leading : List Char → ℕ
leading [] = 0
leading (ch ∷ l) = if is_sep slash ch then 1 + leading l else 0

unfoldable pub parse : List Char → PurePath
parse l = record { root = root_for (leading l); parts = keep is_name (split_on slash l) }

-- `str(path)`
unfoldable pub print : PurePath → List Char
print p = if is_nil p.root && is_nil p.parts then dot ∷ [] else p.root ++ join_on slash p.parts

abbrev pub last_part : List (List Char) → List Char
last_part [] = []
last_part (part ∷ []) = part
last_part (part ∷ next ∷ l) = last_part (next ∷ l)

abbrev pub before_last : List (List Char) → List (List Char)
before_last [] = []
before_last (part ∷ []) = []
before_last (part ∷ next ∷ l) = part ∷ before_last (next ∷ l)

-- What stands before and behind the last dot.
unfoldable pub cut_dot : List Char → Option (List Char × List Char)
cut_dot [] = none
cut_dot (ch ∷ l) = elim (cut_dot l) [
  | some (a, b) ↦ some (ch ∷ a, b)
  | none ↦ if is_dot ch then some ([], l) else none
]

-- A dot at either end of the name is no suffix.
abbrev pub name_parts : List Char → Option (List Char × List Char) → List Char × List Char
name_parts name none = (name, [])
name_parts name (some (a, b)) = if is_nil a || is_nil b then (name, []) else (a, dot ∷ b)

abbrev pub split_name : List Char → List Char × List Char
split_name name = name_parts name (cut_dot name)

-- `path.stem` and `path.suffix`
unfoldable pub stem : PurePath → List Char
stem p = (split_name (last_part p.parts)).0

unfoldable pub suffix : PurePath → List Char
suffix p = (split_name (last_part p.parts)).1

-- `path.with_name(name)`, where `none` stands for a ValueError
unfoldable pub with_name : List Char → PurePath → Option PurePath
with_name name p =
    if is_nil p.parts || not (is_name name && every is_plain name)
    then none
    else some (record p { parts = before_last p.parts ++ name ∷ [] })
