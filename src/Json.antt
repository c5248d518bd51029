-- ===== src/Json.antt =====
-- JSON values as Python holds them, and the part of the standard library that the code reads and
-- writes them with. Negative integers and the negative infinity are left out. A mapping keeps its keys in
-- order, each once.
use linux_rag_t.Prelude.{
  chars, map, of_chars, nonempty, eqb, not, ◌/◌, ◌==◌, ap, if◌then◌else◌, ℕ, ◌<>◌, refl, none, some,
  ok, err, true, false, [], ◌∷◌, Bool, Error, List, Option, Result, String, other_error,
  value_error, ◌≡◌,
}
use linux_rag_t.Query.{ratio, Float}

mutual
  pub data Dict : Type 0 where
    no_keys : Dict
    and_key : String → Json → Dict → Dict

  pub data Values : Type 0 where
    no_values : Values
    and_value : Json → Values → Values

  pub data Json : Type 0 where
    object : Dict → Json
    array : Values → Json
    text : String → Json
    real : Float → Json
    number : ℕ → Json
    boolean : Bool → Json
    null : Json

abbrev pub dict_of : List (String × Json) → Dict
dict_of [] = no_keys
dict_of ((k, j) ∷ l) = and_key k j (dict_of l)

abbrev pub values_of : List Json → Values
values_of [] = no_values
values_of (j ∷ l) = and_value j (values_of l)

abbrev pub list_of : Values → List Json
list_of no_values = []
list_of (and_value j l) = j ∷ list_of l

-- A list and a mapping, as they are written in the source.
abbrev pub json_list : List Json → Json
json_list l = array (values_of l)

abbrev pub json_dict : List (String × Json) → Json
json_dict l = object (dict_of l)

pub list_of-values_of : (l : List Json) → list_of (values_of l) ≡ l
list_of-values_of [] = refl
list_of-values_of (j ∷ l) = ap (◌∷◌ j) (list_of-values_of l)

abbrev pub optional_text : Option String → Json
optional_text none = null
optional_text (some s) = text s

abbrev pub optional_number : Option ℕ → Json
optional_number none = null
optional_number (some n) = number n

-- `key in d` and `d[key]` of a mapping.
abbrev pub lookup : String → Dict → Option Json
lookup k no_keys = none
lookup k (and_key j v l) = let rest = lookup k l in if j == k then some v else rest

-- `json.dumps`, `json.loads`, `datetime.isoformat`, `datetime.fromisoformat`, `int` of a text, `str` and
-- `repr` of a value.
pub record Codec : Type 0 where
  pub dumps : Json → String
  pub loads : String → Result Json
  pub isoformat : ℕ → String
  pub fromisoformat : String → Result ℕ
  pub parse_int : String → Result ℕ
  pub str : Json → String
  pub repr : Json → String

abbrev pub optional_time : Codec → Option ℕ → Json
optional_time c none = null
optional_time c (some t) = text (c.isoformat t)

-- The texts of the exceptions are Python's own and not told apart.
abbrev pub type_error : Error
type_error = other_error "TypeError"

abbrev pub attribute_error : Error
attribute_error = other_error "AttributeError"

abbrev pub key_error : String → Error
key_error key = other_error ("KeyError: " <> key)

abbrev pub found : String → Option Json → Result Json
found key none = err (key_error key)
found key (some v) = ok v

-- `value[key]`
abbrev pub subscript : Json → String → Result Json
subscript (object p) key = found key (lookup key p)
subscript _ key = err type_error

abbrev pub or_json : Option Json → Json → Json
or_json none default = default
or_json (some v) default = v

-- `value.get(key, default)`
abbrev pub get_default : Json → String → Json → Result Json
get_default (object p) key default = ok (or_json (lookup key p) default)
get_default _ key default = err attribute_error

-- `value.get(key)`
abbrev pub get : Json → String → Result Json
get j key = get_default j key null

-- What `json.loads` raises for a text that is no JSON. For a number of too many digits it raises another
-- error.
abbrev pub decode_error : Error
decode_error = other_error "JSONDecodeError"

abbrev pub is_decode_error : Error → Bool
is_decode_error (other_error m) = m == "JSONDecodeError"
is_decode_error _ = false

abbrev pub overflow_error : Error
overflow_error = other_error "OverflowError"

-- The part of a float before the point; infinity has none.
abbrev pub truncated : ℕ → ℕ → Result ℕ
truncated a b = if eqb b 0 then err overflow_error else ok (a / b)

-- `int(value)`. It fails for `nan` and for infinity; negative numbers are left out, and fail here too.
abbrev pub int_of : Codec → Json → Result ℕ
int_of c (number n) = ok n
int_of c (boolean true) = ok 1
int_of c (boolean false) = ok 0
int_of c (real (ratio a b)) = truncated a b
int_of c (real _) = err (value_error "cannot convert float to integer")
int_of c (text s) = c.parse_int s
int_of c _ = err type_error

-- `str(value)`, and an optional text.
abbrev pub text_of : Codec → Json → String
text_of c (text s) = s
text_of c j = c.str j

abbrev pub optional_of : Codec → Json → Option String
optional_of c null = none
optional_of c j = some (text_of c j)

-- `isinstance(value, dict)`
abbrev pub is_mapping : Json → Bool
is_mapping (object p) = true
is_mapping _ = false

-- Python's `bool(value)`.
abbrev pub is_true : Json → Bool
is_true null = false
is_true (boolean b) = b
is_true (number n) = not (eqb n 0)
is_true (real (ratio a b)) = not (eqb a 0)
is_true (real _) = true
is_true (text s) = nonempty s
is_true (array no_values) = false
is_true (array (and_value j l)) = true
is_true (object no_keys) = false
is_true (object (and_key k v l)) = true

-- The keys of a mapping, over which Python iterates.
unfoldable pub key_texts : Dict → List Json
key_texts no_keys = []
key_texts (and_key k j l) = text k ∷ key_texts l

-- What Python iterates over: the elements of a list, the keys of a mapping, the characters of a text.
unfoldable pub items_of : Json → Result (List Json)
unfolding key_texts of_chars
items_of (array l) = ok (list_of l)
items_of (object p) = ok (key_texts p)
items_of (text s) = ok (map (λ ch. text (of_chars (ch ∷ []))) (chars s))
items_of _ = err type_error
