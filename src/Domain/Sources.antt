-- ===== src/Domain/Sources.antt =====
-- backend/src/domain/source_service.py: the life cycle of a source and of an ingestion job. The
-- time of the call is an argument.
pub mod Lifecycle
use linux_rag_t.Ports.Ingestion.{
  succeeded, queued, running, error, active, quarantined, IngestionJob, full_percent,
  pending_validation, zero_percent,
}
use linux_rag_t.Prelude.Int.{pos, negsuc, ℤ}
use linux_rag_t.Prelude.{
  ◌<>◌, truthy, if◌then◌else◌, ℕ, none, some, ok, err, Option, Result, String, or_empty,
  value_error, ◌≡◌,
}
use linux_rag_t.Domain.Models.{KnowledgeSource}

abbrev join_notes : Option String → String → String
join_notes notes reason = if truthy notes then or_empty notes <> "\n" <> reason else reason

unfoldable pub mark_source_validated : ℕ → String → ℕ → KnowledgeSource → Result KnowledgeSource
mark_source_validated now checksum size_bytes source = elim source.status [
  | pending_validation ↦ ok (record source {
    status = active;
    checksum = some checksum;
    size_bytes = size_bytes;
    last_updated = now;
    updated_at = now;
  })
  | _ ↦ err (value_error "source must be pending validation")
]

unfoldable pub mark_source_quarantined : ℕ → String → KnowledgeSource → Result KnowledgeSource
mark_source_quarantined now reason source =
    let quarantine = ok (record source {
      status = quarantined;
      notes = some (join_notes source.notes reason);
      updated_at = now;
    }) in
    elim source.status [
      | active ↦ quarantine
      | error ↦ quarantine
      | _ ↦ err (value_error "only active or errored sources can be quarantined")
    ]

unfoldable pub mark_source_error : ℕ → String → KnowledgeSource → Result KnowledgeSource
mark_source_error now reason source =
    let refused =
      err (value_error "cannot mark an already quarantined or errored source as errored") in
    elim source.status [
      | quarantined ↦ refused
      | error ↦ refused
      | _ ↦ ok (record source {
        status = error;
        notes = some (join_notes source.notes reason);
        updated_at = now;
      })
    ]

unfoldable pub restore_quarantined_source :
    ℕ → Option String → ℕ → Option String → KnowledgeSource → Result KnowledgeSource
restore_quarantined_source now checksum size_bytes notes source = elim source.status [
  | quarantined ↦ ok (record source {
    status = active;
    checksum = elim checksum [ none ↦ source.checksum | some c ↦ some c ];
    size_bytes = size_bytes;
    last_updated = now;
    updated_at = now;
    notes = elim notes [ none ↦ source.notes | some n ↦ some n ];
  })
  | _ ↦ err (value_error "only quarantined sources can be restored to active")
]

unfoldable pub mark_ingestion_running : ℕ → String → IngestionJob → Result IngestionJob
mark_ingestion_running now stage job = elim job.status [
  | queued ↦ ok (record job {
    status = running;
    stage = some stage;
    started_at = elim job.started_at [ none ↦ some now | some t ↦ some t ];
    percent_complete = some zero_percent;
  })
  | _ ↦ err (value_error "job must be queued before it can run")
]

-- The number of documents is a Python `int`, which may be negative.
unfoldable pub mark_ingestion_succeeded : ℕ → ℤ → IngestionJob → Result IngestionJob
mark_ingestion_succeeded now documents_processed job = elim job.status [
  | running ↦ elim documents_processed [
    | negsuc n ↦ err (value_error "documents_processed must be non-negative")
    | pos n ↦ ok (record job {
      status = succeeded;
      completed_at = some now;
      documents_processed = n;
      stage = some "completed";
      percent_complete = some full_percent;
    })
  ]
  | _ ↦ err (value_error "job must be running to complete successfully")
]
