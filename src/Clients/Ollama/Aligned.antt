-- ===== src/Clients/Ollama/Aligned.antt =====
-- Embeddings belong to the documents that they were asked for.
use linux_rag_t.Prelude.{
  ok_injective, ◌<>◌, ◌∙◌, sym, ap, eqb, length, map, inl, inr, ok, err, [], arith, ◌∷◌, Bool-cases,
  Error, List, Result, String, bind-eq-ok, ◌≡◌,
}
use linux_rag_t.Clients.Ollama.{
  Json, EmbeddingResult, counted_results, document_names, embed_documents, embeddings_of,
  input_payload, map_results, names_of, result_of,
}
use linux_rag_t.Json.{Codec, items_of}
use linux_rag_t.Chunking.{Document}

map_results_names :
    (l : List Document) (vectors : List Json) (results : List EmbeddingResult)
    → length vectors ≡ length l
    → map_results l vectors ≡ ok results
    → map names_of results ≡ map document_names l
unfolding map_results
map_results_names [] vectors results n k = ap (map names_of) (sym (ok_injective [] results k))
map_results_names (d ∷ l) [] results n k = absurd (omega arith)
map_results_names (d ∷ l) (v ∷ vectors) results n k =
    let (vector, e, k1) = bind-eq-ok (items_of v) _ results k in
    let (rest, e1, k2) = bind-eq-ok (map_results l vectors) _ results k1 in
    ap (map names_of) (sym (ok_injective (result_of d vector ∷ rest) results k2))
    ∙ ap (◌∷◌ (document_names d)) (map_results_names l vectors rest (omega arith) e1)

err-ne-ok {ℓ} : {A : Type ℓ} (e : Error) (a : A) → err e ≡ ok a → ⊥
err-ne-ok e a k = cc

counted_names :
    (l : List Document) (vectors : List Json) (results : List EmbeddingResult)
    → counted_results l vectors ≡ ok results
    → map names_of results ≡ map document_names l
counted_names l vectors results k = elim (Bool-cases (eqb (length vectors) (length l))) [
  | inl e ↦ map_results_names l vectors results (ground arith) (rw e at k)
  | inr e ↦ absurd (err-ne-ok _ results (rw e at k))
]

-- An embedding request that returns gives one result for each document, in order, with its alias,
-- checksum and chunk number.
pub embed_documents_names :
    (c : Codec) (post : String → Json → Result Json) (base_url model : String) (l : List Document)
    (results : List EmbeddingResult)
    → embed_documents c post base_url model l ≡ ok results
    → map names_of results ≡ map document_names l
unfolding embed_documents
embed_documents_names c post base_url model [] results k =
    ap (map names_of) (sym (ok_injective [] results k))
embed_documents_names c post base_url model (d ∷ l) results k =
    let (body, e, k1) =
      bind-eq-ok (post (base_url <> "/api/embed") (input_payload c post base_url model (d ∷ l))) _
        results k in
    let (embeddings, e1, k2) = bind-eq-ok (embeddings_of c body) _ results k1 in
    let (vectors, e2, k3) = bind-eq-ok (items_of embeddings) _ results k2 in
    counted_names (d ∷ l) vectors results k3
