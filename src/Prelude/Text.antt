-- ===== src/Prelude/Text.antt =====
-- Python's `str` as characters, and the string methods that the code uses.
use Prim.Native.Nat.{◌-◌}
use Prim.Native.Char.{Char, code}
use Prim.Native.String.{String}
use text.Mathlib.Text.{◌==◌ as str_eq}
use mathlib.Core.Path.{◌≡◌, refl, ap}
use mathlib.Core.Bool.{Bool, true, false, ◌&&◌, ◌||◌}
use mathlib.Core.List.{List, [], ◌∷◌, ◌++◌}
use mathlib.Core.Option.{Option, none, some}
use linux_rag_t.Prelude.Tests.{leb, eqb, if◌then◌else◌}
use linux_rag_t.Prelude.Lists.{is_nil, get_or}

infix 50 ◌==◌
abbrev pub ◌==◌ : String → String → Bool
s == t = str_eq s t

abbrev pub chars : String → List Char
chars String.[] = []
chars (String.◌∷◌ c s) = c ∷ chars s

unfoldable pub of_chars : List Char → String
of_chars [] = String.[]
of_chars (c ∷ s) = String.◌∷◌ c (of_chars s)

pub chars-of_chars : (l : List Char) → chars (of_chars l) ≡ l
unfolding of_chars
chars-of_chars [] = refl
chars-of_chars (c ∷ l) = ap (◌∷◌ c) (chars-of_chars l)

-- Truth of a `str`, and of a `str | None`.
abbrev pub nonempty : String → Bool
nonempty String.[] = false
nonempty (String.◌∷◌ c s) = true

abbrev pub or_text : String → String → String
or_text s t = if nonempty s then s else t

abbrev pub or_empty : Option String → String
or_empty none = ""
or_empty (some s) = s

-- `x or default` for an optional text.
abbrev pub or_default : Option String → String → String
or_default o t = or_text (or_empty o) t

abbrev pub truthy : Option String → Bool
truthy o = nonempty (or_empty o)

abbrev pub contains : List String → String → Bool
contains [] s = false
contains (x ∷ xs) s = let rest = contains xs s in if x == s then true else rest

module _ (p : Char → Bool) where
  unfoldable pub lstrip : List Char → List Char
  lstrip [] = []
  lstrip (c ∷ l) = let rest = lstrip l in if p c then rest else c ∷ l

  unfoldable pub rstrip : List Char → List Char
  rstrip [] = []
  rstrip (c ∷ l) = let rest = rstrip l in if is_nil rest && p c then [] else c ∷ rest

-- `str.isspace` of one character.
unfoldable pub is_space : Char → Bool
is_space c =
    let n = code c in
    (leb 9 n && leb n 13)
    || (leb 28 n && leb n 32)
    || eqb n 0x85
    || eqb n 0xa0
    || eqb n 0x1680
    || (leb 0x2000 n && leb n 0x200a)
    || (leb 0x2028 n && leb n 0x2029)
    || eqb n 0x202f
    || eqb n 0x205f
    || eqb n 0x3000

unfoldable pub strip : String → String
unfolding lstrip rstrip is_space of_chars
strip s = of_chars (rstrip is_space (lstrip is_space (chars s)))

-- `str.lower`. Letters outside ASCII are left as they are, but for the two that have an ASCII
-- letter in their lower case: U+212A and U+0130.
unfoldable pub lower_char : Char → List Char
lower_char c =
    let n = code c in
    if leb b'A' n && leb n b'Z'
    then get_or (chars "abcdefghijklmnopqrstuvwxyz") (n - b'A') c ∷ []
    else if eqb n 0x212a
    then chars "k"
    else if eqb n 0x130
    then chars "i̇"
    else c ∷ []

unfoldable pub lower_chars : List Char → List Char
unfolding lower_char
lower_chars [] = []
lower_chars (c ∷ l) = lower_char c ++ lower_chars l

unfoldable pub lower : String → String
unfolding lower_chars of_chars
lower s = of_chars (lower_chars (chars s))

unfoldable pub starts_with : String → String → Bool
starts_with s t = prefix (chars t) (chars s)
  where
    prefix : List Char → List Char → Bool
    prefix [] s = true
    prefix (c ∷ p) [] = false
    prefix (c ∷ p) (d ∷ s) = let rest = prefix p s in if eqb (code c) (code d) then rest else false

lower-strip_man : lower (strip "  Man-PAGES\n") ≡ "man-pages"
unfolding lower strip
lower-strip_man = refl
