-- ===== src/Prelude/Segment.antt =====
-- The part of a text behind its last dash.
use Prim.Native.Char.{Char, code}
use mathlib.Core.Path.{◌≡◌, refl, sym, ap, ◌∙◌}
use mathlib.Core.List.{List, [], ◌∷◌, ◌++◌, append-nil, append_assoc}
use mathlib.Core.Bool.{false}
use native.Mathlib.Omega.{arith}
use linux_rag_t.Prelude.Tests.{eqb, if◌then◌else◌}
use linux_rag_t.Prelude.Lists.{All}
use linux_rag_t.Prelude.Decimal.{IsDigit}

last_segment : List Char → List Char → List Char
last_segment acc [] = acc
last_segment acc (c ∷ l) = last_segment (if eqb (code c) b'-' then [] else acc ++ c ∷ []) l

last_segment-append :
    (acc s t : List Char) → last_segment acc (s ++ t) ≡ last_segment (last_segment acc s) t
unfolding last_segment
last_segment-append acc [] t = refl
last_segment-append acc (c ∷ s) t =
    last_segment-append (if eqb (code c) b'-' then [] else acc ++ c ∷ []) s t

digit-ne-dash : (c : Char) → IsDigit c → eqb (code c) b'-' ≡ false
digit-ne-dash c h = ground arith

last_segment_plain : (acc s : List Char) → All IsDigit s → last_segment acc s ≡ acc ++ s
unfolding last_segment
last_segment_plain acc [] h = sym (append-nil acc)
last_segment_plain acc (c ∷ s) h =
    rw (digit-ne-dash c h.0)
      (last_segment_plain (acc ++ c ∷ []) s h.1 ∙ append_assoc acc (c ∷ []) s)

abbrev dash : Char
dash = "-"

last_segment_dashed : (s d : List Char) → All IsDigit d → last_segment [] (s ++ dash ∷ d) ≡ d
unfolding last_segment
last_segment_dashed s d h = last_segment-append [] s (dash ∷ d) ∙ last_segment_plain [] d h

-- Texts that end in a dash and digits and are equal have the same digits.
pub dashed_injective :
    (s t d e : List Char) → All IsDigit d → All IsDigit e → s ++ dash ∷ d ≡ t ++ dash ∷ e → d ≡ e
dashed_injective s t d e hd he p =
    sym (last_segment_dashed s d hd) ∙ ap (last_segment []) p ∙ last_segment_dashed t e he
