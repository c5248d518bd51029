-- ===== src/Domain/Freshness.antt =====
-- backend/src/domain/query_service.py: when a content index is ready and when it is stale.
use linux_rag_t.Prelude.{
  arith, leb, ltb, ◌+◌, if◌then◌else◌, ◌*◌, ◌≤◌, ℕ, none, some, ok, err, zero, suc, Option, Result,
  value_error, ◌≡◌,
}
use linux_rag_t.Domain.Models.{stale, building, ready, ContentIndexVersion}

-- Seven days, in microseconds.
abbrev pub default_ttl : ℕ
default_ttl = 7 * 86_400_000_000

-- `freshness_ttl or dt.timedelta(days=7)`: an interval of zero counts as none.
unfoldable pub ttl_of : Option ℕ → ℕ
ttl_of none = default_ttl
ttl_of (some zero) = default_ttl
ttl_of (some (suc n)) = suc n

-- `QueryService.mark_index_ready`, at the time `now`, with the service's time to live.
unfoldable pub mark_index_ready : ℕ → ℕ → ℕ → ℕ → ContentIndexVersion → Result ContentIndexVersion
mark_index_ready ttl now document_count size_bytes version = elim version.status [
  | building ↦ ok (record version {
    status = ready;
    built_at = some now;
    document_count = document_count;
    size_bytes = size_bytes;
    freshness_expires_at = some (now + ttl);
  })
  | _ ↦ err (value_error "index version must be in BUILDING state")
]

-- `QueryService.enforce_index_freshness`. The clock is read only without a reference time.
unfoldable pub enforce_index_freshness : ℕ → Option ℕ → ContentIndexVersion → ContentIndexVersion
enforce_index_freshness now reference_time version =
    let pivot : ℕ = elim reference_time [ none ↦ now | some t ↦ t ] in
    elim version.status [
      | ready ↦ elim version.freshness_expires_at [
        | none ↦ version
        | some expires ↦ if leb expires pivot then record version { status = stale } else version
      ]
      | _ ↦ version
    ]

-- An index that was marked ready is ready exactly for the time to live: a check at any later time
-- finds it ready before `now + ttl`, and stale from then on.
pub fresh_for_ttl :
    (freshness_ttl : Option ℕ) (now documents size clock t : ℕ) (v w : ContentIndexVersion)
    → mark_index_ready (ttl_of freshness_ttl) now documents size v ≡ ok w
    → (enforce_index_freshness clock (some t) w).status
      ≡ (if ltb t (now + ttl_of freshness_ttl) then ready else stale)
unfolding mark_index_ready enforce_index_freshness
fresh_for_ttl freshness_ttl now documents size clock t v w h = ground arith

-- Checks compose: a check at one time and then at a later one gives what the later alone gives. So
-- what was found stale stays stale, and a check in between makes no difference.
pub enforce_monotone :
    (clock t u : ℕ) (v : ContentIndexVersion)
    → t ≤ u
    → enforce_index_freshness clock (some u) (enforce_index_freshness clock (some t) v)
      ≡ enforce_index_freshness clock (some u) v
unfolding enforce_index_freshness
enforce_monotone clock t u v h = ground arith
