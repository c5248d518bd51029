-- ===== src/Storage/IndexVersion.antt =====
-- `ContentIndexStorage` of backend/src/adapters/storage/index_version.py, which writes its file beside
-- that of the catalog.
use linux_rag_t.Prelude.{◌∙◌, ap, map, ◌==◌, ℕ, none, inl, inr, false, [], ◌∷◌, Option, String, ◌≡◌}
use linux_rag_t.Json.{
  number, text, Json, Codec, json_dict, json_list, optional_number, optional_time,
}
use linux_rag_t.Storage.Disk.{put, apply, perform, Disk, Interrupted, save_ops, temp_name}
use linux_rag_t.Storage.Catalog.{load}
use linux_rag_t.Storage.Atomic.{save_stops}
use linux_rag_t.Storage.{encode_snapshot}
use linux_rag_t.Domain.Models.{ContentIndexVersion, IndexStatus, ready, stale, building}

abbrev pub index_status_value : IndexStatus → String
index_status_value ready = "ready"
index_status_value stale = "stale"
index_status_value building = "building"
index_status_value IndexStatus.failed = "failed"

unfoldable pub encode_index_version : Codec → ContentIndexVersion → Json
unfolding encode_snapshot
encode_index_version c v = json_dict (
    ("index_id", text v.index_id)
    ∷ ("status", text (index_status_value v.status))
    ∷ ("checksum", text v.checksum)
    ∷ ("source_snapshot", json_list (map (encode_snapshot c) v.source_snapshot))
    ∷ ("size_bytes", number v.size_bytes)
    ∷ ("document_count", number v.document_count)
    ∷ ("trigger_job_id", text v.trigger_job_id)
    ∷ ("built_at", optional_time c v.built_at)
    ∷ ("freshness_expires_at", optional_time c v.freshness_expires_at)
    ∷ ("retrieval_latency_ms", optional_number v.retrieval_latency_ms)
    ∷ ("llm_latency_ms", optional_number v.llm_latency_ms)
    ∷ [])

unfoldable pub save_index : Codec → String → ContentIndexVersion → Disk → Disk
unfolding perform save_ops encode_index_version
save_index c filename v d = perform (save_ops c filename (encode_index_version c v)) d

other_file :
    (c : Codec) (f name : String) (now : ℕ) (content : Option String) (d : Disk)
    → (f == name) ≡ false
    → load c f now (put name content d) ≡ load c f now d
unfolding load
other_file c f name now content d h = rw h

-- A save of an index version, whole or stopped midway, leaves the catalog as it loads, where the file
-- has another name than the catalog's.
pub save_index-load :
    (c : Codec) (f g : String) (now : ℕ) (v : ContentIndexVersion) (d e : Disk)
    → (f == g) ≡ false
    → (f == temp_name g) ≡ false
    → Interrupted (save_ops c g (encode_index_version c v)) d e
    → load c f now e ≡ load c f now d
unfolding save_ops perform apply
save_index-load c f g now v d e other temp r = elim (save_stops r) [
  | inl (part, here) ↦ ap (load c f now) here ∙ other_file c f (temp_name g) now part d temp
  | inr (inl here) ↦
      ap (load c f now) here
      ∙ other_file c f (temp_name g) now none _ temp
      ∙ other_file c f g now _ _ other
      ∙ other_file c f (temp_name g) now _ d temp
  | inr (inr here) ↦ ap (load c f now) here
]
