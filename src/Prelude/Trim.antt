-- ===== src/Prelude/Trim.antt =====
-- What the cutting of texts keeps: `strip`, `rstrip` and slices only drop characters.
use linux_rag_t.Prelude.{chars, chars-of_chars, is_space, of_chars, ◌∙◌, ap, String, ◌≡◌, strip}
use Prim.Native.Nat.{ℕ, zero, suc, ◌≤◌}
use Prim.Native.Char.{Char}
use mathlib.Core.Bool.{Bool, ◌&&◌}
use mathlib.Core.Logic.{inl, inr}
use mathlib.Core.List.{List, [], ◌∷◌}
use mathlib.Core.Path.{refl}
use native.Mathlib.Omega.{arith}
use linux_rag_t.Prelude.Tests.{Bool-cases}
use linux_rag_t.Prelude.Lists.{All, is_nil, length, take}
use linux_rag_t.Prelude.Text.{lstrip, rstrip}

module _ {κ} (P : Char → Type κ) where
  pub All-take : (n : ℕ) (l : List Char) → All P l → All P (take n l)
  All-take zero l h = tt
  All-take (suc n) [] h = tt
  All-take (suc n) (c ∷ l) h = (h.0, All-take n l h.1)

  module _ (p : Char → Bool) where
    pub All-lstrip : (l : List Char) → All P l → All P (lstrip p l)
    unfolding lstrip
    All-lstrip [] h = tt
    All-lstrip (c ∷ l) h = elim (Bool-cases (p c)) [
      | inl e ↦ rw e (All-lstrip l h.1)
      | inr e ↦ rw e h
    ]

    pub All-rstrip : (l : List Char) → All P l → All P (rstrip p l)
    unfolding rstrip
    All-rstrip [] h = tt
    All-rstrip (c ∷ l) h = elim (Bool-cases (is_nil (rstrip p l) && p c)) [
      | inl e ↦ rw e tt
      | inr e ↦ rw e (h.0, All-rstrip l h.1)
    ]

module _ (p : Char → Bool) where
  pub length-rstrip : (l : List Char) → length (rstrip p l) ≤ length l
  unfolding rstrip
  length-rstrip [] = omega arith
  length-rstrip (c ∷ l) = ground (arith, length-rstrip l)

  rstrip_idem : (l : List Char) → rstrip p (rstrip p l) ≡ rstrip p l
  unfolding rstrip
  rstrip_idem [] = refl
  rstrip_idem (c ∷ l) = elim (Bool-cases (is_nil (rstrip p l) && p c)) [
    | inl e ↦ rw e refl
    | inr e ↦ rw e (rw (rstrip_idem l, e) refl)
  ]

  lstrip-rstrip : (l : List Char) → lstrip p (rstrip p (lstrip p l)) ≡ rstrip p (lstrip p l)
  unfolding lstrip rstrip
  lstrip-rstrip [] = refl
  lstrip-rstrip (c ∷ l) = elim (Bool-cases (p c)) [
    | inl e ↦ rw e (lstrip-rstrip l)
    | inr e ↦ ground arith
  ]

  pub rstrip-lstrip_idem :
      (l : List Char) → rstrip p (lstrip p (rstrip p (lstrip p l))) ≡ rstrip p (lstrip p l)
  rstrip-lstrip_idem l = ap (rstrip p) (lstrip-rstrip l) ∙ rstrip_idem (lstrip p l)

-- What was stripped once has nothing left to strip.
pub strip_idem : (s : String) → strip (strip s) ≡ strip s
unfolding strip
strip_idem s =
    ap (λ l. of_chars (rstrip is_space (lstrip is_space l)))
      (chars-of_chars (rstrip is_space (lstrip is_space (chars s))))
    ∙ ap of_chars (rstrip-lstrip_idem is_space (chars s))
