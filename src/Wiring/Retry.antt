-- ===== src/Wiring/Retry.antt =====
-- `_retry_with_backoff` of backend/src/adapters/transport/handlers/http.py. An attempt gives its result
-- by its number; a delay is a number of milliseconds.
use linux_rag_t.Prelude.{
  ◌⊎◌, take, length, sym, ◌∙◌, ap, ◌+◌, ◌≤◌, ℕ, refl, inl, inr, ok, err, zero, suc, [], arith, ◌∷◌,
  Error, List, Result, Result-cases, ◌≡◌,
}

abbrev pub default_delays : List ℕ
default_delays = 500 ∷ 1000 ∷ 2000 ∷ 4000 ∷ 8000 ∷ []

-- What the calls came to, how many there were, and the delays that were slept.
pub record Tried (A : Type 0) : Type 0 where
  pub result : Result A
  pub calls : ℕ
  pub slept : List ℕ

module _ {A : Type 0} (func : ℕ → Result A) where
  abbrev slept_first : ℕ → Tried A → Tried A
  slept_first delay t = record t { slept = delay ∷ t.slept }

  abbrev attempted : ℕ → Tried A → Result A → Tried A
  attempted n rest (ok a) = record { result = ok a; calls = n + 1; slept = [] }
  attempted n rest (err e) = rest

  -- The attempts from a number on, with the delays that are left.
  unfoldable pub attempts_from : ℕ → List ℕ → Tried A
  attempts_from n [] = record { result = func n; calls = n + 1; slept = [] }
  attempts_from n (delay ∷ l) =
      let rest = slept_first delay (attempts_from (n + 1) l) in attempted n rest (func n)

  -- `delays or (0.5, 1.0, 2.0, 4.0, 8.0)`
  abbrev pub schedule_of : List ℕ → List ℕ
  schedule_of [] = default_delays
  schedule_of (d ∷ l) = d ∷ l

  unfoldable pub retry_with_backoff : List ℕ → Tried A
  unfolding attempts_from
  retry_with_backoff delays = attempts_from 0 (schedule_of delays)

  -- The first `k` calls from number `n` raise.
  abbrev pub Failing : ℕ → ℕ → Type 0
  Failing n zero = Unit
  Failing n (suc k) = ((e : Error) × (func n ≡ err e)) × Failing (n + 1) k

  -- How attempts from number `n` end.
  pub record Tries (n : ℕ) (delays : List ℕ) (t : Tried A) : Type 0 where
    pub failures : ℕ
    pub failing : Failing n failures
    pub bounded : failures ≤ length delays
    pub calls : t.calls ≡ n + failures + 1
    pub result : t.result ≡ func (n + failures)
    pub slept : t.slept ≡ take failures delays
    pub ended : ((a : A) × (t.result ≡ ok a)) ⊎ (failures ≡ length delays)

  Tries-more :
      (n delay : ℕ) (l : List ℕ) (e : Error) (t : Tried A)
      → func n ≡ err e
      → Tries (n + 1) l t
      → Tries n (delay ∷ l) (slept_first delay t)
  Tries-more n delay l e t failed r = record {
    failures = suc r.failures;
    failing = ((e, failed), r.failing);
    bounded = (let b = r.bounded in omega arith);
    calls = (let b = r.calls in omega arith);
    result = r.result ∙ ap func (omega arith);
    slept = ap (◌∷◌ delay) r.slept;
    ended = elim r.ended [ inl done ↦ inl done | inr all ↦ inr (ap suc all) ];
  }

  attempts_from-Tries : (n : ℕ) (delays : List ℕ) → Tries n delays (attempts_from n delays)
  unfolding attempts_from
  attempts_from-Tries n [] = record {
    failures = 0;
    failing = tt;
    bounded = omega arith;
    calls = omega arith;
    result = ap func (omega arith);
    slept = refl;
    ended = inr refl;
  }
  attempts_from-Tries n (delay ∷ l) = elim (Result-cases (func n)) [
    | inl (a, e) ↦ rw e (record {
      failures = 0;
      failing = tt;
      bounded = omega arith;
      calls = omega arith;
      result = sym e ∙ ap func (omega arith);
      slept = refl;
      ended = inl (a, refl);
    })
    | inr (x, e) ↦
        rw e (Tries-more n delay l x (attempts_from (n + 1) l) e (attempts_from-Tries (n + 1) l))
  ]

  -- The calls of a retry stop at the first that succeeds, and else after one more than there are
  -- delays; its result is that of the last call, all calls before it raised, and the delays slept
  -- between them are the first ones of the schedule.
  pub retry_with_backoff-Tries :
      (delays : List ℕ) → Tries 0 (schedule_of delays) (retry_with_backoff delays)
  unfolding retry_with_backoff
  retry_with_backoff-Tries delays = attempts_from-Tries 0 (schedule_of delays)
