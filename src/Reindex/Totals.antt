-- ===== src/Reindex/Totals.antt =====
-- What the effects of the loop leave alone: everything but progress and chunks.
use linux_rag_t.Prelude.{
  ◌⊎◌, Error, ap, none, some, ok, err, Result, ◌∙◌, sym, ℕ, ◌++◌, refl, inl, inr, [], arith, ◌∷◌,
  Bool, Bool-cases, List, String, ◌≡◌,
}
use mathlib.Core.List.{append-nil, append_assoc}
use linux_rag_t.Reindex.Source.{
  locate, refresh, alias_progress, build_chunks, finish_source, is_changed, reindex_all,
  reindex_source,
}
use linux_rag_t.Reindex.State.{
  Step, add_documents, then_step, chunked, progress, Event, Progress, Service, emit_progress,
  log_event,
}
use linux_rag_t.Ports.Ingestion.{is_active, IngestionJob, SourceRecord}

abbrev pub collect {ℓ} : {B : Type ℓ} → (Event → List B) → List Event → List B
collect f [] = []
collect f (e ∷ l) = f e ++ collect f l

pub collect-append {ℓ} :
    {B : Type ℓ} (f : Event → List B) (xs ys : List Event)
    → collect f (xs ++ ys) ≡ collect f xs ++ collect f ys
collect-append f [] ys = refl
collect-append f (x ∷ xs) ys =
    rw (collect-append f xs ys) (sym (append_assoc (f x) (collect f xs) (collect f ys)))

pub collect-one {ℓ} :
    {B : Type ℓ} (f : Event → List B) (xs : List Event) (e : Event)
    → collect f (xs ++ e ∷ []) ≡ collect f xs ++ f e
collect-one f xs e = rw (collect-append f xs (e ∷ []), append-nil (f e)) refl

pub Step-cases :
    (s : Step)
    → ((e : Error) × (q : Progress) × (s ≡ (some e, q))) ⊎ ((q : Progress) × (s ≡ (none, q)))
Step-cases (some e, q) = inl (e, q, refl)
Step-cases (none, q) = inr (q, refl)

abbrev pub Keeps {ℓ} : {B : Type ℓ} → (Event → List B) → Progress → Step → Type ℓ
Keeps f p s = collect f s.1.events ≡ collect f p.events

pub then_step-Keeps {ℓ} :
    {B : Type ℓ} (f : Event → List B) (p : Progress) (s : Step) (g : Progress → Step)
    → Keeps f p s
    → ((q : Progress) → Keeps f q (g q))
    → Keeps f p (then_step s g)
then_step-Keeps f p (none, q) g h k = k q ∙ h
then_step-Keeps f p (some e, q) g h k = h

module _ {ℓ} {B : Type ℓ} (c : Service) (f : Event → List B)
    (hp : (j : IngestionJob) → f (progress j) ≡ []) where
  pub emit_progress-collect :
      (j : IngestionJob) (p : Progress)
      → collect f (emit_progress c j p).events ≡ collect f p.events
  unfolding emit_progress
  emit_progress-collect j p =
      ground (arith, collect-one f p.events (progress j), hp j, append-nil (collect f p.events))

  pub alias_progress-collect :
      (sources : ℕ) (alias : String) (calls : List (ℕ × ℕ)) (p : Progress)
      → collect f (alias_progress c sources alias calls p).events ≡ collect f p.events
  unfolding alias_progress
  alias_progress-collect sources alias [] p = refl
  alias_progress-collect sources alias ((done, total) ∷ calls) p =
      alias_progress-collect sources alias calls _ ∙ emit_progress-collect _ p

  pub finish_source-collect :
      (sources : ℕ) (stage : String) (r : SourceRecord) (checksum : String) (p : Progress)
      → collect f (finish_source c sources stage r checksum p).events ≡ collect f p.events
  unfolding finish_source
  finish_source-collect sources stage r checksum p = emit_progress-collect _ _

  module _ (hc : (a : String) → f (chunked a) ≡ []) where
    add_documents-Keeps : (p : Progress) (n : Result ℕ) → Keeps f p (add_documents p n)
    add_documents-Keeps p (ok n) = refl
    add_documents-Keeps p (err e) = refl

    build_chunks-collect :
        (sources : ℕ) (checksum location : String) (r : SourceRecord) (p : Progress)
        → Keeps f p (build_chunks c sources checksum location r p)
    unfolding build_chunks
    build_chunks-collect sources checksum location r p =
        add_documents-Keeps _ (c.chunk_builder r.alias checksum location r.type).1
        ∙ alias_progress-collect sources r.alias
            (c.chunk_builder r.alias checksum location r.type).0 (log_event (chunked r.alias) p)
        ∙ collect-one f p.events (chunked r.alias)
        ∙ ap (λ l. collect f p.events ++ l) (hc r.alias)
        ∙ append-nil (collect f p.events)

    refresh-Keeps :
        (sources : ℕ) (force : Bool) (r : SourceRecord) (p : Progress)
        (found : Result (String × String))
        → Keeps f p (refresh c sources force r p found)
    refresh-Keeps sources force r p (err e) = refl
    refresh-Keeps sources force r p (ok (location, checksum)) =
        elim (Bool-cases (is_changed c force r checksum)) [
          | inl b ↦ rw b (
              then_step-Keeps f p _ _ (build_chunks-collect sources checksum location r p)
                (λ q. finish_source-collect _ _ _ _ q))
          | inr b ↦ rw b (finish_source-collect _ _ _ _ p)
        ]

    source-Keeps :
        (sources : ℕ) (force : Bool) (r : SourceRecord) (p : Progress)
        → Keeps f p (reindex_source c sources force r p)
    unfolding reindex_source
    source-Keeps sources force r p = refresh-Keeps sources force r p (locate c r)

    pub reindex_all-Keeps :
        (sources : ℕ) (force : Bool) (l : List SourceRecord) (p : Progress)
        → Keeps f p (reindex_all c sources force l p)
    unfolding reindex_all
    reindex_all-Keeps sources force [] p = refl
    reindex_all-Keeps sources force (r ∷ l) p = elim (Bool-cases (is_active r.status)) [
      | inl b ↦ rw b (
          then_step-Keeps f p _ _ (source-Keeps sources force r p)
            (reindex_all-Keeps sources force l))
      | inr b ↦ rw b (reindex_all-Keeps sources force l _)
    ]
