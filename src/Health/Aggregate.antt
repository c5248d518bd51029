-- ===== src/Health/Aggregate.antt =====
-- The status of a report is the worst one of its checks.
use linux_rag_t.Prelude.{
  sym, ap, ◌∙◌, inl, inr, Result-cases, ℕ, ◌++◌, ◌↔◌, refl, ok, err, [], arith, ◌∷◌, All, List,
  Result, ◌≡◌,
}
use linux_rag_t.Health.{register, aggregate_status, evaluate_service, run_dependency_checks}
use linux_rag_t.Ports.Health.{HealthCheck, HealthReport, HealthStatus, pass, warn, fail}

abbrev pub worse : HealthStatus → HealthStatus → HealthStatus
worse fail s = fail
worse warn fail = fail
worse warn warn = warn
worse warn pass = warn
worse pass s = s

worse_pass : (s : HealthStatus) → worse s pass ≡ s
worse_pass pass = refl
worse_pass warn = refl
worse_pass fail = refl

worse_assoc : (s t u : HealthStatus) → worse s (worse t u) ≡ worse (worse s t) u
worse_assoc pass t u = refl
worse_assoc warn pass u = refl
worse_assoc warn warn pass = refl
worse_assoc warn warn warn = refl
worse_assoc warn warn fail = refl
worse_assoc warn fail u = refl
worse_assoc fail t u = refl

aggregate-cons :
    (c : HealthCheck) (l : List HealthCheck)
    → aggregate_status (c ∷ l) ≡ worse c.status (aggregate_status l)
unfolding aggregate_status
aggregate-cons c l = ground arith

aggregate_nil : aggregate_status [] ≡ pass
unfolding aggregate_status
aggregate_nil = refl

aggregate-append :
    (l : List HealthCheck) (c : HealthCheck)
    → aggregate_status (l ++ c ∷ []) ≡ worse (aggregate_status l) c.status
aggregate-append [] c = aggregate-cons c [] ∙ rw aggregate_nil (worse_pass c.status)
aggregate-append (x ∷ l) c =
    aggregate-cons x (l ++ c ∷ [])
    ∙ ap (worse x.status) (aggregate-append l c)
    ∙ worse_assoc x.status (aggregate_status l) c.status
    ∙ ap (λ s. worse s c.status) (sym (aggregate-cons x l))

-- A report passes exactly if each check passes.
pub aggregate_pass_iff :
    (l : List HealthCheck) → (aggregate_status l ≡ pass) ↔ All (λ c. c.status ≡ pass) l
unfolding aggregate_status
aggregate_pass_iff [] = (λ e. tt, λ a. refl)
aggregate_pass_iff (c ∷ l) = (
  λ e. (ground arith, (aggregate_pass_iff l).0 (ground arith)),
  λ a. ground (arith, a.0, (aggregate_pass_iff l).1 a.1),
)

run_checks-register :
    (l : List (Result HealthCheck)) (c : HealthCheck) (checks : List HealthCheck)
    → run_dependency_checks l ≡ ok checks
    → run_dependency_checks (register (ok c) l) ≡ ok (checks ++ c ∷ [])
unfolding run_dependency_checks register
run_checks-register [] c checks h = ground arith
run_checks-register (err e ∷ l) c checks h = absurd (ground arith)
run_checks-register (ok x ∷ l) c checks h = elim (Result-cases (run_dependency_checks l)) [
  | inr (e, k) ↦ absurd (ground (arith, k))
  | inl (rest, k) ↦ rw (run_checks-register l c rest k) (ground (arith, k))
]

-- A service that evaluates to a report, with one more factory, which gives a check, evaluates to the
-- report with this check at the end and the worse one of both statuses.
pub evaluate-register :
    (now : ℕ) (factories : List (Result HealthCheck)) (check : HealthCheck) (r : HealthReport)
    → evaluate_service now factories ≡ ok r
    → evaluate_service now (register (ok check) factories)
      ≡ ok (record {
        status = worse r.status check.status;
        checks = r.checks ++ check ∷ [];
        generated_at = now;
      })
unfolding evaluate_service
evaluate-register now factories check r h = elim (Result-cases (run_dependency_checks factories)) [
  | inr (e, k) ↦ absurd (ground (arith, k))
  | inl (checks, k) ↦
      rw (run_checks-register factories check checks k)
        (ground (arith, k, aggregate-append checks check))
]
