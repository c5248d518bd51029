-- ===== src/Domain/Sources/Lifecycle.antt =====
-- The life cycle as a transition relation.
use linux_rag_t.Prelude.{
  ◌≢◌, inl, inr, Result-cases, ◌↔◌, ℕ, refl, arith, ok, err, Error, Option, Result, String, ◌≡◌,
}
use linux_rag_t.Ports.Ingestion.{error, quarantined, active, SourceStatus, pending_validation}
use linux_rag_t.Domain.Sources.{
  mark_source_error, mark_source_quarantined, mark_source_validated, restore_quarantined_source,
}
use linux_rag_t.Domain.Models.{KnowledgeSource}

pub data Action : Type 0 where
  validate : (checksum : String) (size_bytes : ℕ) → Action
  quarantine : (reason : String) → Action
  mark_error : (reason : String) → Action
  restore : (checksum : Option String) (size_bytes : ℕ) (notes : Option String) → Action

unfoldable pub act : ℕ → Action → KnowledgeSource → Result KnowledgeSource
unfolding mark_source_validated mark_source_quarantined mark_source_error restore_quarantined_source
act now (validate checksum size_bytes) source = mark_source_validated now checksum size_bytes source
act now (quarantine reason) source = mark_source_quarantined now reason source
act now (mark_error reason) source = mark_source_error now reason source
act now (restore checksum size_bytes notes) source =
    restore_quarantined_source now checksum size_bytes notes source

-- The edges of the life cycle.
pub data Edge : Action → SourceStatus → SourceStatus → Type 0 where
  validated : {c : String} {n : ℕ} → Edge (validate c n) pending_validation active
  withdrawn : {r : String} → Edge (quarantine r) active quarantined
  given_up : {r : String} → Edge (quarantine r) error quarantined
  never_valid : {r : String} → Edge (mark_error r) pending_validation error
  broken : {r : String} → Edge (mark_error r) active error
  restored :
      {c : Option String} {n : ℕ} {m : Option String} → Edge (restore c n m) quarantined active

abbrev pub Kept : KnowledgeSource → KnowledgeSource → Type 0
Kept s t =
    (t.alias ≡ s.alias)
    × (t.type ≡ s.type)
    × (t.location ≡ s.location)
    × (t.language ≡ s.language)
    × (t.created_at ≡ s.created_at)

abbrev pub Follows : ℕ → Action → SourceStatus → KnowledgeSource → KnowledgeSource → Type 0
Follows now a from s t = Edge a from t.status × (t.updated_at ≡ now) × Kept s t

act-Edge_at :
    (now : ℕ) (a : Action) (s t : KnowledgeSource) (from : SourceStatus)
    → s.status ≡ from
    → act now a s ≡ ok t
    → Follows now a from s t
unfolding act
act-Edge_at now (validate c n) s t pending_validation e h =
    let moved : t.status ≡ active = ground arith in (rw moved validated, ground arith, ground arith)
act-Edge_at now (quarantine r) s t active e h =
    let moved : t.status ≡ quarantined = ground arith in
    (rw moved withdrawn, ground arith, ground arith)
act-Edge_at now (quarantine r) s t error e h =
    let moved : t.status ≡ quarantined = ground arith in
    (rw moved given_up, ground arith, ground arith)
act-Edge_at now (mark_error r) s t pending_validation e h =
    let moved : t.status ≡ error = ground arith in
    (rw moved never_valid, ground arith, ground arith)
act-Edge_at now (mark_error r) s t active e h =
    let moved : t.status ≡ error = ground arith in (rw moved broken, ground arith, ground arith)
act-Edge_at now (restore c n m) s t quarantined e h =
    let moved : t.status ≡ active = ground arith in (rw moved restored, ground arith, ground arith)
act-Edge_at now _ s t from e h = absurd (ground arith)

-- An action that succeeds follows an edge from the source's status, stamps the time of the change,
-- and keeps alias, type, location, language and time of creation.
pub act-Edge :
    (now : ℕ) (a : Action) (s t : KnowledgeSource) → act now a s ≡ ok t → Follows now a s.status s t
act-Edge now a s t h = act-Edge_at now a s t s.status refl h

act-ne-err :
    (now : ℕ) (a : Action) (s : KnowledgeSource) (from to : SourceStatus)
    → s.status ≡ from
    → Edge a from to
    → (x : Error) → act now a s ≢ err x
unfolding act
act-ne-err now a s from to e validated x h = ground arith
act-ne-err now a s from to e withdrawn x h = ground arith
act-ne-err now a s from to e given_up x h = ground arith
act-ne-err now a s from to e never_valid x h = ground arith
act-ne-err now a s from to e broken x h = ground arith
act-ne-err now a s from to e restored x h = ground arith

act-ok_of_edge :
    (now : ℕ) (a : Action) (s : KnowledgeSource) (to : SourceStatus)
    → Edge a s.status to
    → (t : KnowledgeSource) × (act now a s ≡ ok t)
act-ok_of_edge now a s to edge = elim (Result-cases (act now a s)) [
  | inl done ↦ done
  | inr (x, e) ↦ absurd (act-ne-err now a s s.status to refl edge x e)
]

-- An action succeeds exactly where the source's status has an edge for it; elsewhere it raises.
pub act-succeeds_iff :
    (now : ℕ) (a : Action) (s : KnowledgeSource)
    → ((t : KnowledgeSource) × (act now a s ≡ ok t)) ↔ ((to : SourceStatus) × Edge a s.status to)
act-succeeds_iff now a s =
    (λ (t, h). (t.status, (act-Edge now a s t h).0), λ (to, edge). act-ok_of_edge now a s to edge)

-- A run of actions, each at its time.
pub data History (s : KnowledgeSource) : KnowledgeSource → Type 0 where
  begin : History s s
  then_act :
      {t u : KnowledgeSource} (now : ℕ) (a : Action)
      → History s t
      → act now a t ≡ ok u
      → History s u

Edge-leaves_pending :
    {a : Action} {from to : SourceStatus} → Edge a from to → to ≢ pending_validation
Edge-leaves_pending validated = λ e. cc
Edge-leaves_pending withdrawn = λ e. cc
Edge-leaves_pending given_up = λ e. cc
Edge-leaves_pending never_valid = λ e. cc
Edge-leaves_pending broken = λ e. cc
Edge-leaves_pending restored = λ e. cc

-- After any number of successful actions a source is the one it was, with its alias, type, location,
-- language and time of creation; and once it has left the pending state it never comes back to it.
pub History-never_pending :
    (s t : KnowledgeSource)
    → History s t
    → Kept s t × (s.status ≢ pending_validation → t.status ≢ pending_validation)
History-never_pending s t begin = ((refl, refl, refl, refl, refl), λ h. h)
History-never_pending s t (then_act {t = m} now a r h) =
    let (edge, stamped, kept) = act-Edge now a m t h in
    let (before, stays) = History-never_pending s m r in
    (ground arith, λ left. Edge-leaves_pending edge)
