-- ===== src/Engine/Worker/Retry/Attempts.antt =====
-- How many attempts an action takes, which of them are followed by another, and what comes out.
use phantom_traffic.Prelude.{
  ℕ, zero, suc, ◌+◌, ◌≤◌, ◌<◌, ◌≡◌, ◌≢◌, refl, ◌⊎◌, inl, inr, true, false, Option, none, some,
  arith, Bool-cases, Option-cases, subst, ◌==◌,
}
use phantom_traffic.Prelude.Int.{pos_part}
use phantom_traffic.Prelude.Context.{CtxErr}
use phantom_traffic.Prelude.Float.{Float64}
use phantom_traffic.Pterr.{
  Class, class_transient, class_permanent, class_config, class_safety, class_unknown,
  classify_error, classify as classify_err, same_class,
}
use phantom_traffic.Protocols.{
  Outcome, outcome_success, outcome_skipped, outcome_cancelled, outcome_reconnect, Result, Planned,
}
use phantom_traffic.Engine.Pacing.{backoff_delay}
use phantom_traffic.Engine.Worker.Retry.{
  WorkerDeps, Attempt, crashes, answers, Verdict, done, again, Retries, Done, cancel_result,
  classify, retryable, is_success, is_nil, judge, retry_from, do_with_retry,
}

-- An error of the transient or unknown class, or a result without an error that is no success and has
-- one of the two classes.
abbrev pub IsRetryable : {O : Type 0} → Attempt O → Type 0
IsRetryable crashes = ⊥
IsRetryable (answers res obs (some e)) =
    (classify_error e ≡ class_transient) ⊎ (classify_error e ≡ class_unknown)
IsRetryable (answers res obs none) =
    (res.outcome ≢ outcome_success)
    × ((res.err_class ≡ class_transient) ⊎ (res.err_class ≡ class_unknown))

-- An answer without an error whose outcome is a success.
abbrev pub IsSuccess : {O : Type 0} → Attempt O → Type 0
IsSuccess crashes = ⊥
IsSuccess (answers res obs err) = (err ≡ none) × (res.outcome ≡ outcome_success)

retryable_lem : (c : Class) → retryable c ≡ true → (c ≡ class_transient) ⊎ (c ≡ class_unknown)
unfolding retryable same_class
retryable_lem class_transient h = inl refl
retryable_lem class_unknown h = inr refl
retryable_lem class_permanent h = absurd cc
retryable_lem class_config h = absurd cc
retryable_lem class_safety h = absurd cc

failed : (o : Outcome) → is_success o ≡ false → o ≢ outcome_success
unfolding is_success
failed o h e = cc

-- The outcomes that an action can end with.
abbrev pub IsFinal : Outcome → Type 0
IsFinal outcome_reconnect = ⊥
IsFinal outcome_skipped = ⊥
IsFinal _ = Unit {0}

module _ {O : Type 0} (no_obs : O) where
  judge-again :
      (d : WorkerDeps) (pa : Planned) (n : ℕ) (a : Attempt O) (obs : O)
      → judge no_obs d pa n a ≡ again obs
      → IsRetryable a × (n < pos_part d.max_retries)
  unfolding judge classify classify_err is_nil is_success
  judge-again d pa n crashes obs e = ground arith
  judge-again d pa n (answers res o none) obs e =
      ground (arith, failed res.outcome, retryable_lem res.err_class)
  judge-again d pa n (answers res o (some err)) obs e =
      ground (arith, retryable_lem (classify_error err))

  judge-done :
      (d : WorkerDeps) (pa : Planned) (n : ℕ) (a : Attempt O) (res : Result) (obs : O)
      → judge no_obs d pa n a ≡ done res obs
      → IsFinal res.outcome × (res.outcome ≡ outcome_success → IsSuccess a)
  unfolding judge
  judge-done d pa n crashes res obs e = ground arith
  judge-done d pa n (answers r o none) res obs e = ground arith
  judge-done d pa n (answers r o (some err)) res obs e = ground arith

  Verdict-cases :
      (v : Verdict O)
      → ((res : Result) × (obs : O) × (v ≡ done res obs)) ⊎ ((obs : O) × (v ≡ again obs))
  Verdict-cases (done res obs) = inl (res, obs, refl)
  Verdict-cases (again obs) = inr (obs, refl)

  module _ {F : Type 0} (ops : Float64 F) where
    -- The attempts from `n` on: at least one and none past MaxRetries, and each but the last was
    -- fit to be tried again. A success comes from the last.
    pub record Ended (d : WorkerDeps) (env : Retries F O) (n : ℕ) (r : Done O) : Type 0 where
      pub some_made : n < r.attempts
      pub bounded : r.attempts ≤ pos_part d.max_retries + 1
      pub retried : (i : ℕ) → n ≤ i → i + 1 < r.attempts → IsRetryable (env.attempt i)
      pub final : IsFinal r.res.outcome
      pub earned :
          (i : ℕ) → i + 1 ≡ r.attempts → r.res.outcome ≡ outcome_success → IsSuccess (env.attempt i)

    abbrev pub Ends : WorkerDeps → Planned → Retries F O → ℕ → Option (Done O) → Type 0
    Ends d pa env n none = ⊥
    Ends d pa env n (some r) = Ended d env n r

    one_attempt :
        (d : WorkerDeps) (env : Retries F O) (n : ℕ) (res : Result) (obs : O)
        → n ≤ pos_part d.max_retries
        → IsFinal res.outcome
        → (res.outcome ≡ outcome_success → IsSuccess (env.attempt n))
        → Ended d env n (record { res = res; obs = obs; attempts = n + 1 })
    one_attempt d env n res obs b f h = record {
      some_made = omega arith;
      bounded = omega arith;
      retried = λ i l m. absurd (omega arith);
      final = f;
      earned = λ i e s. subst (λ k. IsSuccess (env.attempt k)) (omega arith) (h s);
    }

    one_more :
        (d : WorkerDeps) (env : Retries F O) (n : ℕ) (r : Done O)
        → IsRetryable (env.attempt n)
        → Ended d env (n + 1) r
        → Ended d env n r
    one_more d env n r h e = record {
      some_made = omega (arith, e.some_made);
      bounded = e.bounded;
      retried = λ i l m. elim (Bool-cases (n == i)) [
        | inl same ↦ subst (λ k. IsRetryable (env.attempt k)) (ground arith) h
        | inr other ↦ e.retried i (ground arith) m
      ];
      final = e.final;
      earned = e.earned;
    }

    cancelled_final : (pa : Planned) → (cancel_result pa).outcome ≡ outcome_cancelled
    unfolding cancel_result
    cancelled_final pa = refl

    retry_from-done :
        (fuel : ℕ) (d : WorkerDeps) (pa : Planned) (env : Retries F O) (n : ℕ) (res : Result)
        (obs : O)
        → judge no_obs d pa n (env.attempt n) ≡ done res obs
        → retry_from no_obs ops (suc fuel) d pa env n
          ≡ some (record { res = res; obs = obs; attempts = n + 1 })
    unfolding retry_from
    retry_from-done fuel d pa env n res obs e = rw (e, retry_from) refl

    abbrev pause_before : WorkerDeps → Retries F O → ℕ → Option CtxErr
    pause_before d env n =
        env.sleep n (backoff_delay ops n d.backoff_base d.backoff_max (env.draw n))

    retry_from-cancelled :
        (fuel : ℕ) (d : WorkerDeps) (pa : Planned) (env : Retries F O) (n : ℕ) (obs : O)
        (c : CtxErr)
        → judge no_obs d pa n (env.attempt n) ≡ again obs
        → pause_before d env n ≡ some c
        → retry_from no_obs ops (suc fuel) d pa env n
          ≡ some (record { res = cancel_result pa; obs = obs; attempts = n + 1 })
    unfolding retry_from
    retry_from-cancelled fuel d pa env n obs c e s = rw (e, s, retry_from) refl

    retry_from-again :
        (fuel : ℕ) (d : WorkerDeps) (pa : Planned) (env : Retries F O) (n : ℕ) (obs : O)
        → judge no_obs d pa n (env.attempt n) ≡ again obs
        → pause_before d env n ≡ none
        → retry_from no_obs ops (suc fuel) d pa env n ≡ retry_from no_obs ops fuel d pa env (n + 1)
    unfolding retry_from
    retry_from-again fuel d pa env n obs e s = rw (e, s, retry_from) refl

    Ends-one_more :
        (d : WorkerDeps) (pa : Planned) (env : Retries F O) (n : ℕ) (o : Option (Done O))
        → IsRetryable (env.attempt n)
        → Ends d pa env (n + 1) o
        → Ends d pa env n o
    Ends-one_more d pa env n none h e = e
    Ends-one_more d pa env n (some r) h e = one_more d env n r h e

    retry_from-Ends :
        (fuel : ℕ) (d : WorkerDeps) (pa : Planned) (env : Retries F O) (n : ℕ)
        → n ≤ pos_part d.max_retries
        → pos_part d.max_retries < fuel + n
        → Ends d pa env n (retry_from no_obs ops fuel d pa env n)
    retry_from-Ends zero d pa env n b k = absurd (omega arith)
    retry_from-Ends (suc fuel) d pa env n b k =
        elim (Verdict-cases (judge no_obs d pa n (env.attempt n))) [
          | inl (res, obs, e) ↦
              let (f, h) = judge-done d pa n (env.attempt n) res obs e in
              rw (retry_from-done fuel d pa env n res obs e) (one_attempt d env n res obs b f h)
          | inr (obs, e) ↦
              let (h, small) = judge-again d pa n (env.attempt n) obs e in
              elim (Option-cases (pause_before d env n)) [
                | inl slept ↦ rw (retry_from-again fuel d pa env n obs e slept) (
                    Ends-one_more d pa env n _ h
                      (retry_from-Ends fuel d pa env (n + 1) (omega arith) (omega arith)))
                | inr (c, woken) ↦
                    let o = cancelled_final pa in
                    rw (retry_from-cancelled fuel d pa env n obs c e woken)
                      (one_attempt d env n (cancel_result pa) obs b (rw o tt) (λ s. absurd cc))
              ]
        ]

    pub do_with_retry-Ends :
        (d : WorkerDeps) (pa : Planned) (env : Retries F O)
        → Ends d pa env 0 (do_with_retry no_obs ops d pa env)
    unfolding do_with_retry
    do_with_retry-Ends d pa env =
        retry_from-Ends (pos_part d.max_retries + 1) d pa env 0 (omega arith) (omega arith)
