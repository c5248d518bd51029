-- ===== src/Transport/Framing/RoundTrip.antt =====
-- What is written is read back, whatever follows it on the stream.
use linux_rag_t.Transport.Framing.{
  negate, failure, other_exception, positive, is_newline, read_after, read_body, read_payload,
  frame, newline, Codec, all_ascii, int_digits, int_of, length_of, read_exactly, read_frame,
  read_line, write_frame,
}
use linux_rag_t.Prelude.Int.{negsuc, pos}
use linux_rag_t.Prelude.{
  suc, ap, eqb, ◌∙◌, is_nil, ◌-◌, ◌+◌, ◌*◌, ◌⊎◌, length, lstrip, rstrip, ℕ, ◌++◌, ◌<◌, refl, some,
  inl, inr, true, false, [], arith, ◌∷◌, All, Bool, List, is_space, ◌≡◌,
}
use mathlib.Core.List.{append_assoc}
use linux_rag_t.Prelude.Decimal.{
  decimal, IsDigit, decimal-IsDigit, length-decimal_pos, value_from, value_from-decimal,
}
use Prim.Native.Char.{Char, code}

digit-is_space : (c : Char) → IsDigit c → is_space c ≡ false
unfolding is_space
digit-is_space c h = ground arith

int_digits-value_from :
    (acc : ℕ) (before : Bool) (l : List Char)
    → All IsDigit l
    → before ≡ true ⊎ (0 < length l)
    → int_digits acc before l ≡ some (value_from acc l)
unfolding int_digits value_from
int_digits-value_from acc before [] h (inl b) = rw b refl
int_digits-value_from acc before [] h (inr b) = absurd (omega arith)
int_digits-value_from acc before (c ∷ l) h b =
    rw (h.0) (int_digits-value_from (acc * 10 + (code c - 48)) true l h.1 (inl refl))

int_of-value_from :
    (l : List Char) → All IsDigit l → 0 < length l → int_of l ≡ some (pos (value_from 0 l))
unfolding int_of
int_of-value_from [] h n = absurd (omega arith)
int_of-value_from (c ∷ l) h n =
    let minus : eqb (code c) 45 ≡ false = ground (arith, h.0) in
    let plus : eqb (code c) 43 ≡ false = ground (arith, h.0) in
    rw (minus, plus) (ap positive (int_digits-value_from 0 false (c ∷ l) h (inr n)))

newline-is_space : is_space newline ≡ true
unfolding is_space
newline-is_space = refl

rstrip-digits : (l : List Char) → All IsDigit l → rstrip is_space (l ++ newline ∷ []) ≡ l
unfolding rstrip
rstrip-digits [] h = rw newline-is_space refl
rstrip-digits (c ∷ l) h = rw (rstrip-digits l h.1) (ground (arith, digit-is_space c h.0))

lstrip-digits : (l s : List Char) → All IsDigit l → 0 < length l → lstrip is_space (l ++ s) ≡ l ++ s
unfolding lstrip
lstrip-digits [] s h n = absurd (omega arith)
lstrip-digits (c ∷ l) s h n = rw (digit-is_space c h.0) refl

ascii-digits : (l : List Char) → All IsDigit l → all_ascii (l ++ newline ∷ []) ≡ true
ascii-digits [] h = refl
ascii-digits (c ∷ l) h = ground (arith, h.0, ascii-digits l h.1)

length_of-decimal : (n : ℕ) → length_of (decimal n ++ newline ∷ []) ≡ some (pos n)
unfolding length_of
length_of-decimal n =
    let h = decimal-IsDigit n in
    let p = length-decimal_pos n in
    rw
      (
        ascii-digits (decimal n) h,
        lstrip-digits (decimal n) (newline ∷ []) h p,
        rstrip-digits (decimal n) h,
        int_of-value_from (decimal n) h p,
        value_from-decimal n,
      )
      refl

read_line-digits :
    (l s : List Char) → All IsDigit l → read_line (l ++ newline ∷ s) ≡ (l ++ newline ∷ [], s)
unfolding read_line
read_line-digits [] s h = refl
read_line-digits (c ∷ l) s h =
    let other : is_newline c ≡ false = ground (arith, h.0) in
    rw (other, read_line-digits l s h.1) refl

read_exactly-append : (l s : List Char) → read_exactly (length l) (l ++ s) ≡ some (l, s)
unfolding read_exactly
read_exactly-append [] s = refl
read_exactly-append (c ∷ l) s = rw (read_exactly-append l s) refl

is_nil-snoc : (l : List Char) (c : Char) → is_nil (l ++ c ∷ []) ≡ false
is_nil-snoc [] c = refl
is_nil-snoc (x ∷ l) c = refl

module _ {M : Type 0} (codec : Codec M) where
  written :
      (m : M) (rest : List Char)
      → write_frame codec m ++ rest
        ≡ decimal (length (codec.encode m)) ++ newline ∷ (codec.encode m ++ newline ∷ rest)
  unfolding write_frame
  written m rest =
      append_assoc (decimal (length (codec.encode m))) (newline ∷ (codec.encode m ++ newline ∷ []))
        rest
      ∙ ap (λ l. decimal (length (codec.encode m)) ++ newline ∷ l)
          (append_assoc (codec.encode m) (newline ∷ []) rest)

  -- With a codec that decodes what it encodes, reading what was written gives the message, and leaves
  -- what follows on the stream for the next read.
  pub read_frame-write_frame :
      (m : M) (rest : List Char)
      → codec.decode (codec.encode m) ≡ some m
      → codec.is_utf8 (codec.encode m) ≡ true
      → read_frame codec (write_frame codec m ++ rest) ≡ frame m rest
  unfolding read_frame
  read_frame-write_frame m rest d u =
      let e = codec.encode m in
      let digits = decimal (length e) in
      ap (read_frame codec) (written m rest)
      ∙ ap (read_after codec)
          (read_line-digits digits (e ++ newline ∷ rest) (decimal-IsDigit (length e)))
      ∙ rw (is_nil-snoc digits newline)
          (ap (λ o. read_body codec o (e ++ newline ∷ rest)) (length_of-decimal (length e)))
      ∙ ap (read_payload codec) (read_exactly-append e (newline ∷ rest))
      ∙ rw (u, d) refl

-- The sign of a negative number.
abbrev minus : Char
minus = "-"

minus-is_space : is_space minus ≡ false
unfolding is_space
minus-is_space = refl

strip_minus :
    (l : List Char)
    → All IsDigit l
    → rstrip is_space (lstrip is_space (minus ∷ l ++ newline ∷ [])) ≡ minus ∷ l
unfolding lstrip rstrip
strip_minus l h = rw (minus-is_space, rstrip-digits l h) (ground (arith, minus-is_space))

int_of-minus : (l : List Char) → int_of (minus ∷ l) ≡ negate (int_digits 0 false l)
unfolding int_of
int_of-minus l = refl

length_of-minus : (n : ℕ) → length_of (minus ∷ decimal (suc n) ++ newline ∷ []) ≡ some (negsuc n)
unfolding length_of
length_of-minus n =
    let l = decimal (suc n) in
    let h = decimal-IsDigit (suc n) in
    let value =
      int_digits-value_from 0 false l h (inr (length-decimal_pos (suc n)))
      ∙ ap some (value_from-decimal (suc n)) in
    rw (ascii-digits l h, strip_minus l h) (int_of-minus l ∙ ap negate value)

module _ {M : Type 0} (codec : Codec M) where
  -- A length line with a negative number is no protocol error, after which the loop would read on:
  -- it raises another exception, whatever follows it.
  pub read_frame_negative :
      (n : ℕ) (rest : List Char)
      → read_frame codec (minus ∷ decimal (suc n) ++ newline ∷ rest) ≡ failure other_exception
  unfolding read_frame
  read_frame_negative n rest =
      let digits = decimal (suc n) in
      ap (λ (x : List Char × List Char). read_after codec (minus ∷ x.0, x.1))
        (read_line-digits digits rest (decimal-IsDigit (suc n)))
      ∙ ap (λ o. read_body codec o rest) (length_of-minus n)
