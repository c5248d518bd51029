-- ===== src/Transport/Router/Statuses.antt =====
-- Every result of `dispatch`: the statuses it can have, and what it takes to crash.
use linux_rag_t.Transport.Router.{
  with_loop, is_caught, no_loop, dispatch, handle_admin_health, handle_admin_init,
  handle_list_sources, handle_query, handle_reindex, has_key, log_result, reindex_with, raised,
  declined, refused, answered, crashed, streaming, listed, logged, relay, replied, streamed, Answer,
  Handlers, HealthEntry, Routed, force_of, health_with, init_if, init_with, query_if, query_request,
  query_with, reindex_on, transport_error,
}
use linux_rag_t.Prelude.{
  ap, sym, Option-cases, Result-cases, ok_injective, ◌==◌, Bool-cases, ◌⊎◌, refl, none, some, inl,
  inr, ok, err, true, false, Bool, Error, List, Option, Result, String, ◌≡◌,
}
use linux_rag_t.Json.{
  number, int_of, type_error, is_mapping, lookup, or_json, get_default, Json, text, object, boolean,
}
use linux_rag_t.Query.{QueryRequest}
use linux_rag_t.Transport.Errors.{TransportError}
use linux_rag_t.Transport.Index.{ensure_index_current}
use linux_rag_t.Transport.Ports.{Callback}
use linux_rag_t.Ports.Health.{HealthReport}
use linux_rag_t.Ports.Ingestion.{IngestionJob, IngestionTrigger, SourceCatalog}

abbrev pub Raises {ℓ} : {A : Type ℓ} → Result A → Error → Type ℓ
Raises r e = r ≡ err e

-- A port or the audit logger raises the exception.
pub data Faulty (h : Handlers) (e : Error) : Type 0 where
  catalog_fails : h.list_sources ≡ err e → Faulty h e
  start_fails :
      (trigger : IngestionTrigger) (force : Bool)
      → h.start_reindex trigger force ≡ err e
      → Faulty h e
  health_fails : h.health_port ≡ some (err e) → Faulty h e
  audit_fails :
      (log : HealthEntry → Option Error) (entry : HealthEntry)
      → h.audit_logger ≡ some log
      → log entry ≡ some e
      → Faulty h e

-- `int` of the asked number of tokens raises something else than a TypeError or a ValueError.
abbrev pub IsUncounted : Handlers → Json → Error → Type 0
IsUncounted h body e =
    (j : Json) × (get_default body "max_context_tokens" (number 4096) ≡ ok j)
    × (int_of h.codec j ≡ err e)
    × (is_caught e ≡ false)

-- The errors that the router itself makes.
pub data Refusal : TransportError → Type 0 where
  invalid_request : (message : String) → Refusal (transport_error 400 "INVALID_REQUEST" message)
  invalid_trigger : (message : String) → Refusal (transport_error 400 "INVALID_TRIGGER" message)
  not_found : (message : String) → Refusal (transport_error 404 "NOT_FOUND" message)
  query_failed : (message : String) → Refusal (transport_error 500 "QUERY_FAILED" message)
  health_unavailable :
      (message : String) → Refusal (transport_error 503 "HEALTH_UNAVAILABLE" message)

-- A reply has status 200 and a stream starts with 202. A refusal is one of the router's own, the
-- query port's, or that of a catalog whose index is not current. A crash comes from a port, from a body
-- that is no mapping, from a number of tokens that `int` refuses in another way than by a TypeError or
-- a ValueError, or from a call without an event loop.
abbrev pub IsExpected : Handlers → Json → Routed → Type 0
IsExpected h body (replied status payload) = status ≡ 200
IsExpected h body (streaming status payload s) = status ≡ 202
IsExpected h body (refused e) =
    Refusal e
    ⊎ ((request : QueryRequest) × (h.query_port request ≡ declined e))
    ⊎ ((catalog : SourceCatalog) × (h.list_sources ≡ ok catalog)
        × (ensure_index_current catalog ≡ some e))
IsExpected h body (crashed e) =
    Faulty h e
    ⊎ (is_mapping body ≡ false)
    ⊎ IsUncounted h body e
    ⊎ ((h.loop_running ≡ false) × (e ≡ no_loop))

module _ (h : Handlers) (body : Json) where
  relay-IsExpected :
      (request : QueryRequest) (a : Answer)
      → h.query_port request ≡ a
      → IsExpected h body (relay h a)
  relay-IsExpected request (answered r) k = refl
  relay-IsExpected request (declined e) k = inr (inl (request, k))
  relay-IsExpected request (raised e) k = inl (query_failed _)

  caught-IsExpected : (e : Error) → is_caught e ≡ true → IsExpected h body (query_with h (err e))
  caught-IsExpected e k = rw k (inl (invalid_request _))

  counted-IsExpected :
      (e : Error)
      → (is_caught e ≡ false → IsUncounted h body e)
      → IsExpected h body (query_with h (err e))
  counted-IsExpected e f = elim (Bool-cases (is_caught e)) [
    | inl k ↦ caught-IsExpected e k
    | inr k ↦ rw k (inr (inr (inl (f k))))
  ]

  -- What a body that passes the first test gives.
  query_with-IsExpected :
      (j : Json)
      → j ≡ body
      → has_key "question" j ≡ ok true
      → IsExpected h body (query_with h (query_request h.codec j))
  unfolding query_request
  query_with-IsExpected (object p) same k = elim (Option-cases (lookup "question" p)) [
    | inl e ↦ absurd (cc (ok_injective _ _ (rw e at k)))
    | inr (question, e) ↦
        let asked = or_json (lookup "max_context_tokens" p) (number 4096) in
        elim (Result-cases (int_of h.codec asked)) [
          | inl (n, m) ↦ rw (e, m) (relay-IsExpected _ _ refl)
          | inr (x, m) ↦
              rw (e, m)
                (counted-IsExpected x (λ c. (
                  asked,
                  sym (ap (λ b. get_default b "max_context_tokens" (number 4096)) same),
                  m,
                  c,
                )))
        ]
  ]
  query_with-IsExpected _ same k = caught-IsExpected type_error refl

  query_if-IsExpected :
      (r : Result Bool)
      → has_key "question" body ≡ r
      → ((e : Error) → r ≡ err e → is_mapping body ≡ false)
      → IsExpected h body (query_if h body r)
  query_if-IsExpected (err e) m k = inr (inl (k e refl))
  query_if-IsExpected (ok false) m k = inl (invalid_request _)
  query_if-IsExpected (ok true) m k = query_with-IsExpected body refl m

  listed-IsExpected :
      (r : Result SourceCatalog) → h.list_sources ≡ r → IsExpected h body (listed h r)
  listed-IsExpected (err e) k = inl (catalog_fails k)
  listed-IsExpected (ok catalog) k = refl

  streamed-IsExpected :
      (trigger : IngestionTrigger) (force : Bool) (r : Result (IngestionJob × List Callback))
      → h.start_reindex trigger force ≡ r
      → IsExpected h body (streamed h r)
  streamed-IsExpected trigger force (err e) k = inl (start_fails trigger force k)
  streamed-IsExpected trigger force (ok (job, calls)) k = refl

  with_loop-IsExpected :
      (b : Bool) (routed : Routed)
      → h.loop_running ≡ b
      → IsExpected h body routed
      → IsExpected h body (with_loop h b routed)
  with_loop-IsExpected true routed k m = m
  with_loop-IsExpected false routed k m = inr (inr (inr (k, refl)))

  reindex_on-IsExpected :
      (value force : Json) (t : Option IngestionTrigger)
      → IsExpected h body (reindex_on h value force t)
  reindex_on-IsExpected value force none = inl (invalid_trigger _)
  reindex_on-IsExpected value force (some t) =
      with_loop-IsExpected h.loop_running _ refl
        (streamed-IsExpected t (force_of force) (h.start_reindex t (force_of force)) refl)

  init_if-IsExpected :
      (catalog : SourceCatalog) (o : Option TransportError)
      → h.list_sources ≡ ok catalog
      → ensure_index_current catalog ≡ o
      → IsExpected h body (init_if h catalog o)
  init_if-IsExpected catalog none k m = refl
  init_if-IsExpected catalog (some e) k m = inr (inr (catalog, k, m))

  init_with-IsExpected :
      (r : Result SourceCatalog) → h.list_sources ≡ r → IsExpected h body (init_with h r)
  init_with-IsExpected (err e) k = inl (catalog_fails k)
  init_with-IsExpected (ok catalog) k =
      init_if-IsExpected catalog (ensure_index_current catalog) k refl

  log_result-IsExpected :
      (payload : Json) (entry : HealthEntry) (log : HealthEntry → Option Error) (o : Option Error)
      → h.audit_logger ≡ some log
      → log entry ≡ o
      → IsExpected h body (log_result h payload entry o).0
  log_result-IsExpected payload entry log none k m = refl
  log_result-IsExpected payload entry log (some e) k m = inl (audit_fails log entry k m)

  logged-IsExpected :
      (payload : Json) (entry : HealthEntry) (o : Option (HealthEntry → Option Error))
      → h.audit_logger ≡ o
      → IsExpected h body (logged h payload entry o).0
  logged-IsExpected payload entry none k = refl
  logged-IsExpected payload entry (some log) k =
      log_result-IsExpected payload entry log (log entry) k refl

  health_with-IsExpected :
      (trace_id : String) (o : Option (Result HealthReport))
      → h.health_port ≡ o
      → IsExpected h body (health_with h trace_id o).0
  health_with-IsExpected trace_id none k = inl (health_unavailable _)
  health_with-IsExpected trace_id (some (err e)) k = inl (health_fails k)
  health_with-IsExpected trace_id (some (ok report)) k = logged-IsExpected _ _ h.audit_logger refl

  has_key_mapping :
      (key : String) (j : Json) (e : Error) → has_key key j ≡ err e → is_mapping j ≡ false
  has_key_mapping key (object p) e k = cc
  has_key_mapping key _ e k = refl

  handle_query-IsExpected : IsExpected h body (handle_query h body)
  unfolding handle_query
  handle_query-IsExpected =
      query_if-IsExpected (has_key "question" body) refl (has_key_mapping "question" body)

  reindex_with-IsExpected :
      (j : Json)
      → is_mapping body ≡ is_mapping j
      → IsExpected h body (reindex_with h j (get_default j "trigger" (text "manual")))
  reindex_with-IsExpected (object p) k =
      reindex_on-IsExpected _ (or_json (lookup "force" p) (boolean false)) _
  reindex_with-IsExpected _ k = inr (inl k)

  handle_reindex-IsExpected : IsExpected h body (handle_reindex h body)
  unfolding handle_reindex
  handle_reindex-IsExpected = reindex_with-IsExpected body refl

-- Whatever the path and the body, `dispatch` gives what is expected: a reply has status 200 and a
-- stream starts with 202; a refusal is one of the router's own, with its status and code, or the
-- query port's, or the one that `_ensure_index_current` has for the catalog; and an exception that
-- leaves the router is that of a port or of the audit logger, or the body is no mapping, or `int` of
-- its number of tokens raises neither a TypeError nor a ValueError, as for infinity, or a reindex was
-- asked for without an event loop.
pub dispatch-IsExpected :
    (h : Handlers) (path : String) (body : Json) → IsExpected h body (dispatch h path body).0
unfolding dispatch handle_list_sources handle_admin_init handle_admin_health
dispatch-IsExpected h path body = elim (Bool-cases (path == "/v1/query")) [
  | inl e ↦ rw e (handle_query-IsExpected h body)
  | inr a ↦ elim (Bool-cases (path == "/v1/sources")) [
    | inl e ↦ rw (a, e) (listed-IsExpected h body h.list_sources refl)
    | inr b ↦ elim (Bool-cases (path == "/v1/index/reindex")) [
      | inl e ↦ rw (a, b, e) (handle_reindex-IsExpected h body)
      | inr c ↦ elim (Bool-cases (path == "/v1/admin/init")) [
        | inl e ↦ rw (a, b, c, e) (init_with-IsExpected h body h.list_sources refl)
        | inr d ↦ elim (Bool-cases (path == "/v1/admin/health")) [
          | inl e ↦ rw (a, b, c, d, e) (health_with-IsExpected h body _ h.health_port refl)
          | inr e ↦ rw (a, b, c, d, e) (inl (not_found _))
        ]
      ]
    ]
  ]
]
