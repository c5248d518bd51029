-- ===== src/Clients/Weaviate/Stored.antt =====
-- What the vector store gives back of the documents that were ingested.
use linux_rag_t.Clients.Weaviate.{
  usable, ingest, nothing_ingested, query_documents, Json, Embedded, Fetch, Ingested, add_document,
  add_documents, count_alias, document_from_properties, document_id, document_payload,
  documents_from,
}
use linux_rag_t.Prelude.{
  All, ok_injective, nonempty, ◌∙◌, true, ap, if◌then◌else◌, length, sym, keep, map, ℕ, ◌++◌, ◌+◌,
  ◌==◌, refl, ok, suc, [], arith, ◌∷◌, List, String, eq_iff, ◌≡◌,
}
use linux_rag_t.Storage.RoundTrip.{source_type-type_value}
use mathlib.Core.Path.{subst}
use mathlib.Core.List.{Memᴰ, append-nil, append_assoc}
use linux_rag_t.Json.{Codec, null, text, object, array, number, real, boolean}
use linux_rag_t.Ports.Ingestion.{SourceType, type_value}

pub document_from_properties-document_payload :
    (c : Codec) (d : Embedded) → document_from_properties c (document_payload d) ≡ ok d
unfolding document_from_properties document_payload
document_from_properties-document_payload c (d, null) = simp (source_type-type_value c)
document_from_properties-document_payload c (d, boolean b) = simp (source_type-type_value c)
document_from_properties-document_payload c (d, number n) = simp (source_type-type_value c)
document_from_properties-document_payload c (d, real x) = simp (source_type-type_value c)
document_from_properties-document_payload c (d, text s) = simp (source_type-type_value c)
document_from_properties-document_payload c (d, array l) = simp (source_type-type_value c)
document_from_properties-document_payload c (d, object p) = simp (source_type-type_value c)

-- What the counts say of an alias.
abbrev pub tally : String → List (String × ℕ) → ℕ
tally alias [] = 0
tally alias ((a, n) ∷ l) = let rest = tally alias l in if a == alias then n else rest

tally-count_alias :
    (a b : String) (l : List (String × ℕ))
    → tally b (count_alias a l) ≡ (if a == b then suc (tally b l) else tally b l)
unfolding count_alias
tally-count_alias a b [] = ground arith
tally-count_alias a b ((k, n) ∷ l) =
    ground (arith, eq_iff k a, eq_iff k b, eq_iff a b, tally-count_alias a b l)

-- How many documents have the alias.
abbrev pub with_alias : String → List Embedded → ℕ
with_alias alias l = length (keep (λ d. d.0.alias == alias) l)

module _ (uuid5 : String → String) where
  abbrev pub object_of : Embedded → String × Json
  object_of d = (document_id uuid5 d.0, document_payload d)

  add_documents-added :
      (s : Ingested) (l : List Embedded)
      → (add_documents uuid5 s l).added ≡ s.added ++ map object_of l
  unfolding add_documents
  add_documents-added s [] = sym (append-nil s.added)
  add_documents-added s (d ∷ l) =
      add_documents-added (add_document uuid5 s d) l
      ∙ append_assoc s.added (object_of d ∷ []) (map object_of l)

  add_documents-counts :
      (alias : String) (s : Ingested) (l : List Embedded)
      → tally alias (add_documents uuid5 s l).counts ≡ tally alias s.counts + with_alias alias l
  unfolding add_documents
  add_documents-counts alias s [] = omega arith
  add_documents-counts alias s (d ∷ l) = ground (
    arith,
    add_documents-counts alias (add_document uuid5 s d) l,
    tally-count_alias d.0.alias alias s.counts,
  )

ingest_all :
    (uuid5 : String → String) (l : List Embedded) (s : Ingested)
    → ingest uuid5 usable l ≡ ok s
    → add_documents uuid5 (nothing_ingested uuid5) l ≡ s
unfolding ingest
ingest_all uuid5 [] s k = ok_injective _ s k
ingest_all uuid5 (d ∷ l) s k = ok_injective _ s k

-- The payload of a document that was ingested.
abbrev pub IsPayload : List Embedded → Json → Type 0
IsPayload l j = (d : Embedded) × Memᴰ d l × (document_payload d ≡ j)

object_of-IsPayload :
    (uuid5 : String → String) (l : List Embedded) (j : Json)
    → Memᴰ j (map (λ e. e.1) (map (object_of uuid5) l))
    → IsPayload l j
object_of-IsPayload uuid5 [] j m = elim m [ ]
object_of-IsPayload uuid5 (d ∷ l) j (Memᴰ.head e) = (d, Memᴰ.head refl, sym e)
object_of-IsPayload uuid5 (d ∷ l) j (Memᴰ.tail m) =
    let (found, here, e) = object_of-IsPayload uuid5 l j m in (found, Memᴰ.tail here, e)

payloads :
    (uuid5 : String → String) (l : List Embedded) (objects : List Json)
    → All (λ j. Memᴰ j (map (λ e. e.1) (map (object_of uuid5) l))) objects
    → All (IsPayload l) objects
payloads uuid5 l [] h = tt
payloads uuid5 l (j ∷ objects) (m, h) =
    (object_of-IsPayload uuid5 l j m, payloads uuid5 l objects h)

-- What the documents of the objects are, where each object is the payload of one of the list.
record IsRead (c : Codec) (l : List Embedded) (objects : List Json) : Type 0 where
  documents : List Embedded
  given : documents_from c objects ≡ ok documents
  stored : All (λ d. Memᴰ d l) documents
  same : map document_payload documents ≡ objects

documents_from-IsRead :
    (c : Codec) (l : List Embedded) (objects : List Json)
    → All (IsPayload l) objects
    → IsRead c l objects
unfolding documents_from
documents_from-IsRead c l [] h = record { documents = []; given = refl; stored = tt; same = refl }
documents_from-IsRead c l (j ∷ objects) ((d, m, e), h) =
    let rest = documents_from-IsRead c l objects h in
    record {
      documents = d ∷ rest.documents;
      given = rw (sym e, document_from_properties-document_payload c d, rest.given) refl;
      stored = (m, rest.stored);
      same = rw (e, rest.same) refl;
    }

-- With a client that offers a usable batch, and a store that answers a query, which names an alias and
-- a language, with objects that were added to it: the query gives exactly the documents of these
-- objects, in their order, each one a document that was ingested, with its embedding. Which ones they
-- are and how many is up to the store. And the ingestion counts the documents of each alias.
pub query_documents-ingest :
    (c : Codec) (uuid5 : String → String) (fetch : Fetch) (l : List Embedded) (s : Ingested)
    (alias language : String) (kind : SourceType) (n : ℕ) (objects : List Json)
    → ingest uuid5 usable l ≡ ok s
    → fetch alias (type_value kind) language n ≡ ok objects
    → All (λ j. Memᴰ j (map (λ e. e.1) s.added)) objects
    → nonempty alias ≡ true
    → nonempty language ≡ true
    → ((documents : List Embedded) × (query_documents c fetch alias kind language n ≡ ok documents)
        × (map document_payload documents ≡ objects)
        × All (λ d. Memᴰ d l) documents)
      × ((other : String) → tally other s.counts ≡ with_alias other l)
unfolding query_documents
query_documents-ingest c uuid5 fetch l s alias language kind n objects done answer added some_alias
      some_language =
    let all = ingest_all uuid5 l s done in
    let same : s.added ≡ map (object_of uuid5) l =
      ap (λ x. x.added) (sym all) ∙ add_documents-added uuid5 (nothing_ingested uuid5) l in
    let read = documents_from-IsRead c l objects (
      payloads uuid5 l objects
        (subst (λ x. All (λ j. Memᴰ j (map (λ e. e.1) x)) objects) same added)) in
    (
      (read.documents, rw (some_alias, some_language, answer) read.given, read.same, read.stored),
      λ other. omega (
        arith,
        ap (λ x. tally other x.counts) all,
        add_documents-counts uuid5 other (nothing_ingested uuid5) l,
      ),
    )
