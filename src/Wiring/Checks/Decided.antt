-- ===== src/Wiring/Checks/Decided.antt =====
-- What decides the checks of the services.
use linux_rag_t.Prelude.{
  ◌∙◌, ap, sym, ◌+◌, ◌≤◌, ◌⊎◌, ℕ, refl, inl, inr, ok, err, false, zero, suc, [], arith, Error,
  Result, ◌≡◌,
}
use linux_rag_t.Ports.Health.{HealthCheck, pass, fail}
use linux_rag_t.Wiring.Checks.{
  Services, ollama_answer, ollama_endpoint, ollama_health_check, weaviate_answer, weaviate_endpoint,
  weaviate_health_check,
}
use linux_rag_t.Launcher.{HandlerSettings}
use linux_rag_t.Wiring.Retry.{Failing, retry_with_backoff, retry_with_backoff-Tries}
use mathlib.Core.Path.{subst}

-- A check passes with a request that succeeds, the first one to do so and one of the first six; it
-- fails where six requests raise.
abbrev pub Decided : {A : Type 0} → (ℕ → Result A) → HealthCheck → Type 0
Decided {A} get check =
    ((check.status ≡ pass) × ((k : ℕ) × (a : A) × (k ≤ 5) × Failing get 0 k × (get k ≡ ok a)))
    ⊎ ((check.status ≡ fail) × Failing get 0 6)

module _ {A : Type 0} (get : ℕ → Result A) where
  Failing-suc :
      (n k : ℕ) (e : Error) → Failing get n k → get (n + k) ≡ err e → Failing get n (suc k)
  Failing-suc n zero e h f = ((e, sym (ap get (omega arith)) ∙ f), tt)
  Failing-suc n (suc k) e h f = (h.0, Failing-suc (n + 1) k e h.1 (ap get (omega arith) ∙ f))

  Failing-six :
      (k : ℕ) (e : Error) → k ≡ 5 → Failing get 0 k → get (0 + k) ≡ err e → Failing get 0 6
  Failing-six k e five h f =
      subst (Failing get 0) {x = suc k} {y = 6} (omega (arith, five)) (Failing-suc 0 k e h f)

  all_used :
      (e : Error) (r : Result A) → r ≡ err e → (n : ℕ) → ((a : A) × (r ≡ ok a)) ⊎ (n ≡ 5) → n ≡ 5
  all_used e r k n (inl (a, done)) = cc (k, done)
  all_used e r k n (inr all) = all

  decided :
      (answer : Result A → HealthCheck)
      → ((a : A) → (answer (ok a)).status ≡ pass)
      → ((e : Error) → (answer (err e)).status ≡ fail)
      → (r : Result A) → (retry_with_backoff get []).result ≡ r
      → Decided get (answer r)
  decided answer passes fails (ok a) k =
      let t = retry_with_backoff-Tries get [] in
      inl (
        passes a,
        (
          t.failures,
          a,
          (let b = t.bounded in omega arith),
          t.failing,
          sym (ap get (omega arith)) ∙ sym t.result ∙ k,
        ),
      )
  decided answer passes fails (err e) k =
      let t = retry_with_backoff-Tries get [] in
      inr (
        fails e,
        Failing-six t.failures e
            (all_used e (retry_with_backoff get []).result k t.failures t.ended) t.failing
            (sym t.result ∙ k),
      )

-- With real services, the check of the language model passes with the first of at most six requests
-- that succeeds, and fails if six raise; so does that of the vector store.
pub checks-Decided :
    (s : Services) (settings : HandlerSettings)
    → s.using_fakes ≡ false
    → Decided (s.get_json (ollama_endpoint s settings)) (ollama_health_check s settings)
      × Decided (s.get_json (weaviate_endpoint s settings)) (weaviate_health_check s settings)
unfolding ollama_health_check weaviate_health_check
checks-Decided s settings real = (
  rw real (
      decided (s.get_json (ollama_endpoint s settings)) (ollama_answer s settings.ollama_url)
        (λ a. refl) (λ e. refl) _ refl),
  rw real (
      decided (s.get_json (weaviate_endpoint s settings)) (weaviate_answer s settings.weaviate_url)
        (λ a. refl) (λ e. refl) _ refl),
)
