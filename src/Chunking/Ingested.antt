-- ===== src/Chunking/Ingested.antt =====
-- What a call of the chunk builder leaves in the vector store, and what it tells.
use linux_rag_t.Prelude.{
  some-injective, ap, keep, sym, ◌∙◌, true, Error, Option, length-append, ◌||◌, ◌%◌, eqb, ◌&&◌, ◌+◌,
  if◌then◌else◌, length, ◌≤◌, ℕ, ◌++◌, refl, none, some, inl, inr, ok, err, false, [], arith, ◌∷◌,
  All, All-append, Bool, Bool-cases, List, Result, ◌≡◌,
}
use linux_rag_t.Chunking.Builder.{
  build_documents, finished, build, build_all, empty_build, ingest_one, then_round, emit, Adapters,
  Build, Embedding, Round, embed_one, is_embedded,
}
use mathlib.Core.Path.{subst}
use linux_rag_t.Chunking.{Document}
use mathlib.Core.List.{append-nil, append_assoc}

abbrev has_vector : {V : Type 0} → Document → Result (List (Embedding V)) → Bool
has_vector d (err e) = false
has_vector d (ok results) = is_embedded d results

abbrev pub embeds : {V : Type 0} → Adapters V → Document → Bool
embeds c d = has_vector d (c.embed d)

-- A progress call with at most `total` documents of `total`.
abbrev pub Within : ℕ → ℕ × ℕ → Type 0
Within total (done, all) = (done ≤ total) × (all ≡ total)

record Sound (total : ℕ) (l : List Document) (b : Build) : Type 0 where
  counted : b.processed ≡ length b.ingested
  fits : b.processed + length l ≤ total
  told : All (Within total) b.calls

-- A round that raises nothing adds these documents.
abbrev Adds : List Document → Build → Round → Type 0
Adds l b (none, q) = q.ingested ≡ b.ingested ++ l
Adds l b (some e, q) = Unit

then_round-Sound :
    (total : ℕ) (l : List Document) (r : Round) (g : Build → Round)
    → Sound total l r.1
    → ((q : Build) → Sound total l q → Sound total [] (g q).1)
    → (Sound total l r.1 → Sound total [] r.1)
    → Sound total [] (then_round r g).1
then_round-Sound total l (none, q) g s k w = k q s
then_round-Sound total l (some e, q) g s k w = w s

then_round-Adds :
    (k l : List Document) (b : Build) (r : Round) (g : Build → Round)
    → Adds k b r
    → ((q : Build) → Adds l q (g q))
    → Adds (k ++ l) b (then_round r g)
then_round-Adds k l b (none, q) g h f = chain (g q) (f q)
  where
    chain : (s : Round) → Adds l q s → Adds (k ++ l) b s
    chain (none, t) e = e ∙ ap (λ x. x ++ l) h ∙ append_assoc b.ingested k l
    chain (some e, t) u = tt
then_round-Adds k l b (some e, q) g h f = tt

module _ {V : Type 0} (c : Adapters V) (total : ℕ) where
  emit-Sound :
      (l : List Document) (due : Bool) (b : Build)
      → Sound total l b
      → Sound total l (emit c total due b)
  emit-Sound l due b s = elim (Bool-cases (c.on_progress && (eqb (b.processed % 10) 0 || due))) [
    | inr e ↦ rw e s
    | inl e ↦ rw e (record {
      counted = s.counted;
      fits = s.fits;
      told = All-append (Within total) b.calls _ s.told ((let f = s.fits in omega arith, refl), tt);
    })
  ]

  emit-ingested : (due : Bool) (b : Build) → (emit c total due b).ingested ≡ b.ingested
  emit-ingested due b = ground arith

  weaken : (d : Document) (l : List Document) (b : Build) → Sound total (d ∷ l) b → Sound total l b
  weaken d l b s = record {
    counted = s.counted;
    fits = (let f = s.fits in omega arith);
    told = s.told;
  }

  ingest_one-Sound :
      (d : Document) (l : List Document) (o : Option Error) (b : Build)
      → Sound total (d ∷ l) b
      → Sound total l (ingest_one c total d o b).1
  ingest_one-Sound d l (some e) b s = weaken d l b s
  ingest_one-Sound d l none b s = emit-Sound l (c.due (b.processed + 1)) _ (record {
    counted = (let h = s.counted in omega (arith, length-append b.ingested (d ∷ [])));
    fits = (let f = s.fits in omega arith);
    told = s.told;
  })

  ingest_one-Adds :
      (d : Document) (o : Option Error) (b : Build) → Adds (d ∷ []) b (ingest_one c total d o b)
  ingest_one-Adds d (some e) b = tt
  ingest_one-Adds d none b = emit-ingested (c.due (b.processed + 1)) _

  embed_one-Sound :
      (d : Document) (l : List Document) (r : Result (List (Embedding V))) (b : Build)
      → Sound total (d ∷ l) b
      → Sound total l (embed_one c total d r b).1
  embed_one-Sound d l (err e) b s = weaken d l b s
  embed_one-Sound d l (ok results) b s = elim (Bool-cases (is_embedded d results)) [
    | inr e ↦ rw e (weaken d l b s)
    | inl e ↦ rw e (ingest_one-Sound d l (c.ingest d) b s)
  ]

  embed_one-Adds :
      (d : Document) (r : Result (List (Embedding V))) (b : Build)
      → Adds (if has_vector d r then d ∷ [] else []) b (embed_one c total d r b)
  embed_one-Adds d (err e) b = tt
  embed_one-Adds d (ok results) b = elim (Bool-cases (is_embedded d results)) [
    | inr e ↦ rw e (sym (append-nil b.ingested))
    | inl e ↦ rw e (ingest_one-Adds d (c.ingest d) b)
  ]

  nothing_left : (l : List Document) (b : Build) → Sound total l b → Sound total [] b
  nothing_left l b s = record {
    counted = s.counted;
    fits = (let f = s.fits in omega arith);
    told = s.told;
  }

  build_all-Sound :
      (l : List Document) (b : Build) → Sound total l b → Sound total [] (build_all c total l b).1
  unfolding build_all
  build_all-Sound [] b s = s
  build_all-Sound (d ∷ l) b s =
      then_round-Sound total l (embed_one c total d (c.embed d) b) (build_all c total l)
        (embed_one-Sound d l (c.embed d) b s) (build_all-Sound l) (nothing_left l _)

  build_all-Adds :
      (l : List Document) (b : Build) → Adds (keep (embeds c) l) b (build_all c total l b)
  unfolding build_all
  build_all-Adds [] b = sym (append-nil b.ingested)
  build_all-Adds (d ∷ l) b =
      subst (λ k. Adds k b (build_all c total (d ∷ l) b))
        (keep_if (embeds c d) d (keep (embeds c) l))
        (then_round-Adds _ (keep (embeds c) l) b (embed_one c total d (c.embed d) b)
          (build_all c total l) (embed_one-Adds d (c.embed d) b) (build_all-Adds l))
    where
      keep_if :
          (x : Bool) (d : Document) (k : List Document)
          → (if x then d ∷ [] else []) ++ k ≡ (if x then d ∷ k else k)
      keep_if true d k = refl
      keep_if false d k = refl

build_documents-ingested :
    {V : Type 0} (c : Adapters V) (docs : List Document)
    → ((build_documents c docs).1.processed ≡ length (build_documents c docs).1.ingested)
      × All (Within (length docs)) (build_documents c docs).1.calls
      × ((r : List Document)
          → (build_documents c docs).0 ≡ ok r
          → (r ≡ docs) × ((build_documents c docs).1.ingested ≡ keep (embeds c) docs))
unfolding build_documents
build_documents-ingested c [] = (refl, tt, λ r h. (ground arith, refl))
build_documents-ingested c (d ∷ l) =
    finish (build_all c (length (d ∷ l)) (d ∷ l) empty_build)
      (build_all-Sound c (length (d ∷ l)) (d ∷ l) empty_build
        (record { counted = refl; fits = omega arith; told = tt }))
      (build_all-Adds c (length (d ∷ l)) (d ∷ l) empty_build)
  where
    finish :
        (s : Round)
        → Sound (length (d ∷ l)) [] s.1
        → Adds (keep (embeds c) (d ∷ l)) empty_build s
        → ((finished c (length (d ∷ l)) (d ∷ l) s).1.processed
            ≡ length (finished c (length (d ∷ l)) (d ∷ l) s).1.ingested)
          × All (Within (length (d ∷ l))) (finished c (length (d ∷ l)) (d ∷ l) s).1.calls
          × ((r : List Document)
              → (finished c (length (d ∷ l)) (d ∷ l) s).0 ≡ ok r
              → (r ≡ d ∷ l)
                × ((finished c (length (d ∷ l)) (d ∷ l) s).1.ingested ≡ keep (embeds c) (d ∷ l)))
    finish (some e, b) s a = (s.counted, s.told, λ r h. absurd (ground arith))
    finish (none, b) s a =
        let t = emit-Sound c (length (d ∷ l)) [] c.due_at_end b s in
        (
          t.counted,
          t.told,
          λ r h. (sym (cc h), emit-ingested c (length (d ∷ l)) c.due_at_end b ∙ a),
        )

-- A call of the chunk builder that returns gives all documents of the source, none of whose files
-- raised, and has ingested, in order, exactly those for which the embedding is one vector that is not
-- empty. Whether it returns or raises, the number that it counts is that of the ingested documents,
-- and each progress call has at most the total, which is the number of all documents. If the reading
-- of a file raises, the call raises that and has ingested nothing.
pub build-ingested :
    {V : Type 0} (c : Adapters V) (docs : List Document) (o : Option Error)
    → ((build c (docs, o)).1.processed ≡ length (build c (docs, o)).1.ingested)
      × All (Within (length docs)) (build c (docs, o)).1.calls
      × ((r : List Document)
          → (build c (docs, o)).0 ≡ ok r
          → (o ≡ none) × (r ≡ docs) × ((build c (docs, o)).1.ingested ≡ keep (embeds c) docs))
      × ((e : Error)
          → o ≡ some e
          → ((build c (docs, o)).0 ≡ err e) × ((build c (docs, o)).1.ingested ≡ []))
unfolding build
build-ingested c docs none =
    let (counted, told, whole) = build_documents-ingested c docs in
    (counted, told, λ r h. (refl, (whole r h).0, (whole r h).1), λ e h. absurd (cc h))
build-ingested c docs (some x) =
    (refl, tt, λ r h. absurd (cc h), λ e h. (ap err (some-injective x e h), refl))
