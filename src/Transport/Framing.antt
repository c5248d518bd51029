-- ===== src/Transport/Framing.antt =====
-- `_read_frame` and `_write_frame` of backend/src/adapters/transport/server.py: a frame is the length
-- of its payload in decimal, a newline, the payload, and a newline. A byte is a character below 256. The
-- limits of the stream reader on a line and of `int` on the number of digits are left out.
pub mod RoundTrip
use linux_rag_t.Prelude.{
  leb, ◌-◌, ◌++◌, ◌+◌, length, not, rstrip, ◌&&◌, ◌*◌, eqb, if◌then◌else◌, lstrip, ltb, ℕ, none,
  some, true, false, zero, suc, [], ◌∷◌, Bool, List, Option, String, is_nil, is_space, ◌≡◌,
}
use linux_rag_t.Prelude.Int.{ℤ, pos, negsuc}
use linux_rag_t.Prelude.Decimal.{decimal}
use Prim.Native.Char.{Char, code}

-- `json.dumps(…).encode` and `json.loads(….decode)`, which gives nothing where the text is no JSON,
-- and whether the payload is UTF-8.
pub record Codec (M : Type 0) : Type 0 where
  pub encode : M → List Char
  pub decode : List Char → Option M
  pub is_utf8 : List Char → Bool

pub data Failure : Type 0 where
  connection_closed : Failure
  protocol_error : String → Failure
  -- `ValueError` of `readexactly`, `IncompleteReadError` and `UnicodeDecodeError`.
  other_exception : Failure

-- A frame and the bytes behind it, or what is raised.
pub data Parsed (M : Type 0) : Type 0 where
  frame : M → List Char → Parsed M
  failure : Failure → Parsed M

abbrev pub newline : Char
newline = "\n"

abbrev pub is_newline : Char → Bool
is_newline c = eqb (code c) 10

-- `readline`: up to the newline, and it with it, or what there is.
unfoldable pub read_line : List Char → List Char × List Char
read_line [] = ([], [])
read_line (c ∷ l) =
    let rest = read_line l in if is_newline c then (c ∷ [], l) else (c ∷ rest.0, rest.1)

-- `readexactly`
unfoldable pub read_exactly : ℕ → List Char → Option (List Char × List Char)
read_exactly zero l = some ([], l)
read_exactly (suc n) [] = none
read_exactly (suc n) (c ∷ l) = elim (read_exactly n l) [
  | none ↦ none
  | some (s, rest) ↦ some (c ∷ s, rest)
]

-- The digits of Python's `int`, with single underscores between them; the flag tells whether a digit
-- stands before.
unfoldable pub int_digits : ℕ → Bool → List Char → Option ℕ
int_digits acc before [] = if before then some acc else none
int_digits acc before (c ∷ l) =
    let digit = int_digits (acc * 10 + (code c - 48)) true l in
    let underscore = int_digits acc false l in
    if leb b'0' (code c) && leb (code c) b'9'
    then digit
    else if before && eqb (code c) b'_'
    then underscore
    else none

abbrev pub negate : Option ℕ → Option ℤ
negate none = none
negate (some zero) = some (pos 0)
negate (some (suc n)) = some (negsuc n)

abbrev pub positive : Option ℕ → Option ℤ
positive none = none
positive (some n) = some (pos n)

-- `int` of a text without space around it.
unfoldable pub int_of : List Char → Option ℤ
unfolding int_digits
int_of [] = none
int_of (c ∷ l) =
    if eqb (code c) b'-'
    then negate (int_digits 0 false l)
    else if eqb (code c) b'+'
    then positive (int_digits 0 false l)
    else positive (int_digits 0 false (c ∷ l))

abbrev pub all_ascii : List Char → Bool
all_ascii [] = true
all_ascii (c ∷ l) = let rest = all_ascii l in ltb (code c) 128 && rest

-- `int(length_line.decode("ascii").strip())`
unfoldable pub length_of : List Char → Option ℤ
unfolding int_of lstrip rstrip
length_of line = if all_ascii line then int_of (rstrip is_space (lstrip is_space line)) else none

module _ {M : Type 0} (codec : Codec M) where
  abbrev pub decoded : Option M → List Char → Parsed M
  decoded none rest = failure (protocol_error "Frame payload is not valid JSON")
  decoded (some m) rest = frame m rest

  -- The payload was read; the trailing byte and the decoding are left.
  abbrev pub read_payload : Option (List Char × List Char) → Parsed M
  read_payload none = failure other_exception
  read_payload (some (s, [])) = failure other_exception
  read_payload (some (s, c ∷ rest)) =
      if not (is_newline c)
      then failure (protocol_error "Frame must terminate with newline sentinel")
      else if not (codec.is_utf8 s)
      then failure other_exception
      else decoded (codec.decode s) rest

  abbrev pub read_body : Option ℤ → List Char → Parsed M
  read_body none l = failure (protocol_error "Invalid frame length prefix")
  read_body (some (negsuc n)) l = failure other_exception
  read_body (some (pos n)) l = read_payload (read_exactly n l)

  abbrev pub read_after : List Char × List Char → Parsed M
  read_after (line, l) =
      if is_nil line then failure connection_closed else read_body (length_of line) l

  unfoldable pub read_frame : List Char → Parsed M
  unfolding read_line length_of read_exactly
  read_frame input = read_after (read_line input)

  unfoldable pub write_frame : M → List Char
  unfolding decimal
  write_frame m =
      let encoded = codec.encode m in
      decimal (length encoded) ++ newline ∷ (encoded ++ newline ∷ [])
