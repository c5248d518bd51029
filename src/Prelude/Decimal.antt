-- ===== src/Prelude/Decimal.antt =====
-- `str(n)` of a natural number: its decimal digits, which determine it and hold no dash.
use Prim.Native.Nat.{ℕ, zero, suc, ◌+◌, ◌-◌, ◌*◌, ◌/◌, ◌%◌, ◌^◌, ◌≤◌, ◌<◌}
use Prim.Native.Char.{Char, code}
use Prim.Native.String.{String}
use mathlib.Core.Path.{◌≡◌, refl, ap, sym, ◌∙◌}
use mathlib.Core.Logic.{inl, inr}
use mathlib.Core.Bool.{true, ◌&&◌}
use mathlib.Core.List.{List, [], ◌∷◌, ◌++◌}
use native.Mathlib.Omega.{arith}
use native.Mathlib.Nat.{pow-suc}
use linux_rag_t.Prelude.Tests.{lt→ltb, ltb, leb, if◌then◌else◌, Bool-cases}
use linux_rag_t.Prelude.Lists.{All, All-append, get_or, length, length-append}
use linux_rag_t.Prelude.Text.{chars, of_chars}

digit : ℕ → Char
digit d = get_or (chars "0123456789") d "0"

-- Fuel: one more than the number is enough, since each round divides by ten.
digits : ℕ → ℕ → List Char
unfolding digit
digits zero n = []
digits (suc f) n =
    let rest = digits f (n / 10) in if ltb n 10 then digit n ∷ [] else rest ++ digit (n % 10) ∷ []

unfoldable pub decimal : ℕ → List Char
unfolding digits
decimal n = digits (suc n) n

unfoldable pub str_nat : ℕ → String
unfolding decimal of_chars
str_nat n = of_chars (decimal n)

-- The number that a list of digits stands for.
unfoldable pub value_from : ℕ → List Char → ℕ
value_from acc [] = acc
value_from acc (c ∷ l) = value_from (acc * 10 + (code c - 48)) l

value_from-append :
    (acc : ℕ) (s t : List Char) → value_from acc (s ++ t) ≡ value_from (value_from acc s) t
unfolding value_from
value_from-append acc [] t = refl
value_from-append acc (c ∷ s) t = value_from-append (acc * 10 + (code c - 48)) s t

abbrev DigitOf : ℕ → Type 0
DigitOf d = (code (digit d) ≡ 48 + d)

code-digit : (d : ℕ) → d < 10 → DigitOf d
unfolding digit
code-digit zero h = refl
code-digit (suc zero) h = refl
code-digit (suc (suc zero)) h = refl
code-digit (suc (suc (suc zero))) h = refl
code-digit (suc (suc (suc (suc zero)))) h = refl
code-digit (suc (suc (suc (suc (suc zero))))) h = refl
code-digit (suc (suc (suc (suc (suc (suc zero)))))) h = refl
code-digit (suc (suc (suc (suc (suc (suc (suc zero))))))) h = refl
code-digit (suc (suc (suc (suc (suc (suc (suc (suc zero)))))))) h = refl
code-digit (suc (suc (suc (suc (suc (suc (suc (suc (suc zero))))))))) h = refl
code-digit (suc (suc (suc (suc (suc (suc (suc (suc (suc (suc d)))))))))) h = absurd (omega arith)

value_from-digits : (f n : ℕ) → n < f → value_from 0 (digits f n) ≡ n
unfolding digits value_from
value_from-digits zero n h = absurd (omega arith)
value_from-digits (suc f) n h = elim (Bool-cases (ltb n 10)) [
  | inl small ↦ rw small (omega (arith, code-digit n (ground arith)))
  | inr large ↦ rw large (
      rw (value_from-append 0 (digits f (n / 10)) (digit (n % 10) ∷ [])) (
        rw (value_from-digits f (n / 10) (ground arith))
          (omega (arith, code-digit (n % 10) (omega arith)))))
]

pub decimal_injective : (m n : ℕ) → decimal m ≡ decimal n → m ≡ n
unfolding decimal
decimal_injective m n e =
    sym (value_from-digits (suc m) m (omega arith))
    ∙ ap (value_from 0) e
    ∙ value_from-digits (suc n) n (omega arith)

pub value_from-decimal : (n : ℕ) → value_from 0 (decimal n) ≡ n
unfolding decimal
value_from-decimal n = value_from-digits (suc n) n (omega arith)

pub length-decimal_pos : (n : ℕ) → 0 < length (decimal n)
unfolding decimal digits
length-decimal_pos n = elim (Bool-cases (ltb n 10)) [
  | inl small ↦ rw small (omega arith)
  | inr large ↦ rw (large, length-append) (omega arith)
]

-- `[0-9]`
abbrev pub IsDigit : Char → Type 0
IsDigit c = (leb b'0' (code c) && leb (code c) b'9') ≡ true

digit-IsDigit : (d : ℕ) → d < 10 → IsDigit (digit d)
digit-IsDigit d h = ground (arith, code-digit d h)

digits-IsDigit : (f n : ℕ) → All IsDigit (digits f n)
unfolding digits
digits-IsDigit zero n = tt
digits-IsDigit (suc f) n = elim (Bool-cases (ltb n 10)) [
  | inl small ↦ rw small (digit-IsDigit n (ground arith), tt)
  | inr large ↦ rw large (
      All-append IsDigit (digits f (n / 10)) _ (digits-IsDigit f (n / 10))
        (digit-IsDigit (n % 10) (omega arith), tt))
]

pub decimal-IsDigit : (n : ℕ) → All IsDigit (decimal n)
unfolding decimal
decimal-IsDigit n = digits-IsDigit (suc n) n

-- A number below 10 ^ (d + 1) has at most d + 1 digits.
tenth-lt : (n d : ℕ) → n < 10 ^ suc (suc d) → n / 10 < 10 ^ suc d
tenth-lt n d h = let e = pow-suc 10 (suc d) in omega arith

length-digits : (f n d : ℕ) → n < 10 ^ suc d → length (digits f n) ≤ suc d
unfolding digits
length-digits zero n d h = omega arith
length-digits (suc f) n zero h = rw (lt→ltb n 10 h) (omega arith)
length-digits (suc f) n (suc d) h = elim (Bool-cases (ltb n 10)) [
  | inl small ↦ rw small (omega arith)
  | inr large ↦
      rw large (rw length-append (omega (arith, length-digits f (n / 10) d (tenth-lt n d h))))
]

pub length-decimal : (n d : ℕ) → n < 10 ^ suc d → length (decimal n) ≤ suc d
unfolding decimal
length-decimal n d h = length-digits (suc n) n d h

decimal_example : str_nat 1207 ≡ "1207"
unfolding str_nat
decimal_example = refl
