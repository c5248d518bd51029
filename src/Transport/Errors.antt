-- ===== src/Transport/Errors.antt =====
-- backend/src/adapters/transport/handlers/errors.py
use linux_rag_t.Prelude.{ℕ, String, Option, some}

pub record TransportError : Type 0 where
  pub status : ℕ
  pub code : String
  pub message : String
  pub remediation : Option String

-- `IndexUnavailableError(code=…, message=…, remediation=…)`
abbrev pub index_unavailable : String → String → String → TransportError
index_unavailable code message remediation = record {
  status = 409;
  code = code;
  message = message;
  remediation = some remediation;
}
