-- ===== src/Tests/Audit.antt =====
-- Entries of an audit log whose own file is denied.
use linux_rag_t.Prelude.{
  ◌⊎◌, strip, lower, ◌==◌, chars, if◌then◌else◌, refl, none, some, err, [], ◌∷◌, Error, Option,
  value_error, ◌≡◌, ◌<>◌,
}
use linux_rag_t.Storage.Audit.{
  written, denied, mutation_entry, Log, Logger, log_mutation, log_admin_init,
}
use linux_rag_t.Storage.Audit.Entries.{IsAppended, log_mutation_cases}
use linux_rag_t.Tests.Storage.{codec_for}
use linux_rag_t.Storage.Audit.Code.{IsLanguageCode}
use linux_rag_t.Json.{Codec}

abbrev codec : Codec
codec = codec_for (λ s. err (value_error s))

abbrev pub logger : Logger
logger = record {
  codec = codec;
  write = λ path. if path == "/var/audit.log" then denied else written;
  fallback = λ path. "/home/.ragcli/audit.log";
  now = 5;
}

abbrev empty_log : Log
empty_log = record { path = "/var/audit.log"; lines = [] }

abbrev logged : Option Error × Log
logged =
    log_mutation logger "source_add" "man" "success" " EN-us " none (some "location=x") empty_log

moved_on : logged ≡ (
  none,
  record { path = "/home/.ragcli/audit.log"; lines = ("/home/.ragcli/audit.log", "saved\n") ∷ [] },
)
unfolding log_mutation linux_rag_t.Storage.Audit.normalize_language_code lower strip
moved_on = refl

log_mutation_cases_example :
    (IsLanguageCode (chars (lower (strip " EN-us ")))
      × IsAppended logger
          (mutation_entry logger "source_add" "man" "success"
            (lower (strip " EN-us "))
            none
            (some "location=x"))
          empty_log
          logged)
    ⊎ (¬ IsLanguageCode (chars (lower (strip " EN-us ")))
        × ((e : Error) × (logged ≡ (some e, empty_log))))
log_mutation_cases_example =
    log_mutation_cases logger "source_add" "man" "success" " EN-us " none (some "location=x")
      empty_log

refused :
    log_mutation logger "source_add" "man" "success" "english!" none none empty_log
    ≡ (some (value_error ("language '" <> "english!" <> "' is not a valid ISO code")), empty_log)
unfolding log_mutation linux_rag_t.Storage.Audit.normalize_language_code lower strip
refused = refl

untraced :
    log_admin_init logger "success" (some "  ") [] [] [] empty_log
    ≡ (some (value_error "trace_id must be provided for admin audit entries"), empty_log)
unfolding log_admin_init linux_rag_t.Storage.Audit.require_trace_id strip
untraced = refl
