-- ===== src/Tests/Clients.antt =====
-- Two documents in the vector store, and embeddings for one.
use linux_rag_t.Prelude.{All, map, refl, ok, err, [], ◌∷◌, List, Result, String, value_error, ◌≡◌}
use linux_rag_t.Clients.Weaviate.Stored.{tally, query_documents-ingest, with_alias}
use mathlib.Core.List.{Memᴰ}
use linux_rag_t.Clients.Weaviate.{
  document_payload, usable, ingest, Embedded, Fetch, Ingested, add_documents,
  document_from_properties, nothing_ingested, query_documents,
}
use linux_rag_t.Ports.Ingestion.{man}
use linux_rag_t.Json.{Json, items_of, json_dict, json_list, null, object, number, no_keys}
use linux_rag_t.Clients.Ollama.{embed_documents}
use linux_rag_t.Tests.Storage.{codec}
use linux_rag_t.Tests.Engine.{chunk}

abbrev documents : List Embedded
documents = (chunk "bash", json_list (number 1 ∷ [])) ∷ (chunk "tar", null) ∷ []

abbrev stored : Ingested
stored = add_documents (λ s. s) (nothing_ingested (λ s. s)) documents

-- A store that answers in another order.
abbrev fetch : Fetch
fetch alias kind language n = ok (
    document_payload (chunk "tar", null)
    ∷ document_payload (chunk "bash", json_list (number 1 ∷ []))
    ∷ [])

stored_lem : ingest (λ s. s) usable documents ≡ ok stored
unfolding ingest
stored_lem = refl

query_documents-ingest_example :
    ((found : List Embedded) × (query_documents codec fetch "tar" man "en" 3 ≡ ok found)
      × (map document_payload found
          ≡ document_payload (chunk "tar", null)
            ∷ document_payload (chunk "bash", json_list (number 1 ∷ []))
            ∷ [])
      × All (λ d. Memᴰ d documents) found)
    × ((other : String) → tally other stored.counts ≡ with_alias other documents)
unfolding add_documents
query_documents-ingest_example =
    query_documents-ingest codec (λ s. s) fetch documents stored "tar" "en" man 3
      (document_payload (chunk "tar", null)
        ∷ document_payload (chunk "bash", json_list (number 1 ∷ []))
        ∷ [])
      stored_lem refl (Memᴰ.tail (Memᴰ.head refl), (Memᴰ.head refl, tt)) refl refl

missing_field :
    document_from_properties codec (object no_keys)
    ≡ err (value_error "query result missing required field")
unfolding document_from_properties
missing_field = refl

abbrev posted : String → Json → Result Json
posted url payload = ok (json_dict (("embedding", json_list (number 4 ∷ [])) ∷ []))

one_result :
    embed_documents codec posted "http://o" "m" (chunk "bash" ∷ [])
    ≡ ok (record { alias = "bash"; checksum = "c1"; chunk_id = 0; embedding = number 4 ∷ [] } ∷ [])
unfolding embed_documents items_of
one_result = refl

two_documents :
    embed_documents codec posted "http://o" "m" (chunk "bash" ∷ chunk "tar" ∷ [])
    ≡ err (value_error "embedding count must match input document count")
unfolding embed_documents items_of
two_documents = refl
