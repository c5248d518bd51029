-- ===== src/Storage/Audit/Entries.antt =====
-- The line that the log gets for a mutation of the catalog.
use linux_rag_t.Prelude.{
  strip, lower, chars, nonempty, ok, err, false, [], ◌==◌, ◌≢◌, ◌⊎◌, refl, none, some, inl, inr,
  arith, Bool-cases, Error, Option, String, eq_iff, ◌≡◌,
}
use linux_rag_t.Storage.Audit.Code.{IsLanguageCode, is_language_code_iff}
use linux_rag_t.Storage.Audit.{
  log_mutation, is_language_code, mutation_entry, normalize_language_code, broken, append, denied,
  written, Json, Log, Logger, Write, add_line, append_again,
}

module _ (c : Logger) (entry : Json) (log : Log) where
  -- The entry is the next line, in the logger's file or, where that file is denied, in the other
  -- one, which the logger then keeps; or neither file can be written, an error is raised and no
  -- line is added.
  pub data IsAppended : Option Error × Log → Type 0 where
    at_path : c.write log.path ≡ written → IsAppended (none, add_line c log.path entry log)
    at_fallback :
        c.write log.path ≡ denied
        → c.write (c.fallback log.path) ≡ written
        → IsAppended (none, add_line c (c.fallback log.path) entry log)
    unwritten :
        {e : Error} {path : String}
        → c.write log.path ≢ written
        → (c.write log.path ≢ denied) ⊎ (c.write (c.fallback log.path) ≢ written)
        → IsAppended (some e, record log { path = path })

  Write-cases : (w : Write) → (w ≡ written) ⊎ (w ≡ denied) ⊎ ((e : Error) × (w ≡ broken e))
  Write-cases written = inl refl
  Write-cases denied = inr (inl refl)
  Write-cases (broken e) = inr (inr (e, refl))

  append_again-IsAppended :
      c.write log.path ≡ denied
      → IsAppended (append_again c (c.fallback log.path) entry log (c.write (c.fallback log.path)))
  append_again-IsAppended h = elim (Write-cases (c.write (c.fallback log.path))) [
    | inl e ↦ rw e (at_fallback h e)
    | inr (inl e) ↦ rw e (unwritten (λ w. absurd (ground arith)) (inr (λ w. absurd (ground arith))))
    | inr (inr (_, e)) ↦
        rw e (unwritten (λ w. absurd (ground arith)) (inr (λ w. absurd (ground arith))))
  ]

  append-IsAppended : IsAppended (append c entry log)
  unfolding append
  append-IsAppended = elim (Write-cases (c.write log.path)) [
    | inl e ↦ rw e (at_path e)
    | inr (inl e) ↦ rw e (elim (Bool-cases (c.fallback log.path == log.path)) [
      | inl same ↦ rw same (
          unwritten (λ w. absurd (ground arith))
            (inr (λ w. absurd (ground (arith, (eq_iff (c.fallback log.path) log.path).0 same)))))
      | inr other ↦ rw other (append_again-IsAppended e)
    ])
    | inr (inr (_, e)) ↦
        rw e (unwritten (λ w. absurd (ground arith)) (inl (λ w. absurd (ground arith))))
  ]

empty_no_code : ¬ IsLanguageCode []
unfolding is_language_code
empty_no_code h = absurd (ground (arith, (is_language_code_iff []).1 h))

empty_text : (s : String) → nonempty s ≡ false → chars s ≡ []
empty_text String.[] h = refl
empty_text (String.◌∷◌ ch s) h = absurd (ground arith)

-- A code is accepted exactly where the trimmed lower-case text is one.
normalize_cases :
    (language : String)
    → (IsLanguageCode (chars (lower (strip language)))
        × (normalize_language_code language ≡ ok (lower (strip language))))
      ⊎ (¬ IsLanguageCode (chars (lower (strip language)))
          × ((e : Error) × (normalize_language_code language ≡ err e)))
unfolding normalize_language_code
normalize_cases language = elim (Bool-cases (nonempty (lower (strip language)))) [
  | inr e ↦ inr (rw (empty_text _ e) empty_no_code, rw e (_, refl))
  | inl e ↦ elim (Bool-cases (is_language_code (chars (lower (strip language))))) [
    | inl good ↦ inl ((is_language_code_iff _).0 good, rw (e, good) refl)
    | inr bad ↦ inr (
      λ h. absurd (ground (arith, (is_language_code_iff (chars (lower (strip language)))).1 h)),
      rw (e, bad) (_, refl),
    )
  ]
]

-- Where the trimmed lower-case text of the language is a language code, the mutation is logged with
-- that code: its entry is appended to the logger's file or, where that file is denied, to the other
-- one, and an error is raised only where neither can be written, with no line added. Where it is not
-- a language code, an error is raised and the log is as it was.
pub log_mutation_cases :
    (c : Logger) (action alias status language : String) (trace_id details : Option String)
    (log : Log)
    → (IsLanguageCode (chars (lower (strip language)))
        × IsAppended c
            (mutation_entry c action alias status (lower (strip language)) trace_id details)
            log
            (log_mutation c action alias status language trace_id details log))
      ⊎ (¬ IsLanguageCode (chars (lower (strip language)))
          × ((e : Error) × (log_mutation c action alias status language trace_id details log
                ≡ (some e, log))))
unfolding log_mutation
log_mutation_cases c action alias status language trace_id details log =
    elim (normalize_cases language) [
      | inl (code, e) ↦ inl (code, rw e (append-IsAppended c _ log))
      | inr (bad, (error, e)) ↦ inr (bad, (error, rw e refl))
    ]
