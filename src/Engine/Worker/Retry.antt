-- ===== src/Engine/Worker/Retry.antt =====
-- internal/engine/worker.go, the results and the retry loop; panic.go turns a panic of the handler into
-- `crashes`. The handler, the sleeps and the random draws are given by attempt. An observation is
-- handed on unread, so its type is a parameter.
pub mod Attempts
use phantom_traffic.Prelude.{
  ℕ, zero, suc, ◌+◌, String, Bool, true, false, not, ◌&&◌, ◌||◌, Option, none, some, if◌then◌else◌,
}
use text.Mathlib.Text.{◌==◌ as str_eq}
use phantom_traffic.Prelude.Int.{ℤ, pos, pos_part, leb_ℤ}
use phantom_traffic.Prelude.Clock.{Duration}
use phantom_traffic.Prelude.Context.{CtxErr}
use phantom_traffic.Prelude.Float.{Float64}
use phantom_traffic.Pterr.{
  Class, class_transient, class_unknown, class_safety, GoErr, same_class, classify as classify_err,
}
use phantom_traffic.Protocols.{
  Outcome, outcome_success, outcome_failure, outcome_skipped, outcome_cancelled, outcome_panicked,
  Result, zero_result, Planned,
}
use phantom_traffic.Engine.Pacing.{backoff_delay}

-- The part of workerDeps that is configuration.
pub record WorkerDeps : Type 0 where
  pub max_retries : ℤ
  pub backoff_base : Duration
  pub backoff_max : Duration
  pub session_max_actions : ℤ

unfoldable pub base_result : Planned → Result
base_result pa = record zero_result {
  protocol = pa.protocol;
  action = pa.verb;
  target_id = pa.target_id;
}

unfoldable pub skip_result : Planned → Result
unfolding base_result
skip_result pa = record (base_result pa) { outcome = outcome_skipped }

unfoldable pub cancel_result : Planned → Result
unfolding base_result
cancel_result pa = record (base_result pa) { outcome = outcome_cancelled }

unfoldable pub failure_result : Planned → Class → String → Result
unfolding base_result
failure_result pa class code = record (base_result pa) {
  outcome = outcome_failure;
  err_class = class;
  err_code = code;
}

unfoldable pub safety_result : Planned → Result
unfolding base_result
safety_result pa = record (base_result pa) {
  outcome = outcome_failure;
  err_class = class_safety;
  err_code = "safety.cap";
}

unfoldable pub panic_result : Planned → Result
unfolding base_result
panic_result pa = record (base_result pa) {
  outcome = outcome_panicked;
  err_class = class_unknown;
  err_code = "panic";
}

-- A class of 0 is `class_transient`.
unfoldable pub failed_result : Planned → Result → Class → Result
unfolding base_result same_class
failed_result pa res class =
    let res' = if str_eq res.protocol "" then base_result pa else res in
    record res' {
      outcome = outcome_failure;
      err_class = if same_class res'.err_class class_transient then class else res'.err_class;
    }

unfoldable pub is_success : Outcome → Bool
is_success outcome_success = true
is_success _ = false

unfoldable pub classify : Result → Option GoErr → Class
unfolding classify_err is_success
classify res (some e) = classify_err (some e)
classify res none = if not (is_success res.outcome) then res.err_class else class_unknown

unfoldable pub is_nil : Option GoErr → Bool
is_nil none = true
is_nil (some e) = false

unfoldable pub retryable : Class → Bool
unfolding same_class
retryable class = same_class class class_transient || same_class class class_unknown

pub data Attempt (O : Type 0) : Type 0 where
  crashes : Attempt O
  answers : Result → O → Option GoErr → Attempt O

-- What the loop does after an attempt: it returns, or it sleeps and tries again.
pub data Verdict (O : Type 0) : Type 0 where
  done : Result → O → Verdict O
  again : O → Verdict O

pub record Retries (F O : Type 0) : Type 0 where
  pub attempt : ℕ → Attempt O
  pub sleep : ℕ → Duration → Option CtxErr
  pub draw : ℕ → F

pub record Done (O : Type 0) : Type 0 where
  pub res : Result
  pub obs : O
  pub attempts : ℕ

module _ {O : Type 0} (no_obs : O) where
  unfoldable pub judge : WorkerDeps → Planned → ℕ → Attempt O → Verdict O
  unfolding panic_result failed_result classify is_success is_nil retryable
  judge d pa n crashes = done (panic_result pa) no_obs
  judge d pa n (answers res obs err) =
      let class = classify res err in
      if is_nil err && is_success res.outcome
      then done res obs
      else if not (retryable class) || leb_ℤ d.max_retries (pos n)
      then done (failed_result pa res class) obs
      else again obs

  module _ {F : Type 0} (ops : Float64 F) where
    -- The loop from attempt `n` on.
    unfoldable pub retry_from : ℕ → WorkerDeps → Planned → Retries F O → ℕ → Option (Done O)
    unfolding judge cancel_result backoff_delay
    retry_from zero d pa env n = none
    retry_from (suc fuel) d pa env n =
        let rest = retry_from fuel d pa env (n + 1) in
        elim (judge d pa n (env.attempt n)) [
          | done res obs ↦ some (record { res = res; obs = obs; attempts = n + 1 })
          | again obs ↦
              elim (env.sleep n (backoff_delay ops n d.backoff_base d.backoff_max (env.draw n))) [
                | some e ↦ some (record { res = cancel_result pa; obs = obs; attempts = n + 1 })
                | none ↦ rest
              ]
        ]

    unfoldable pub do_with_retry : WorkerDeps → Planned → Retries F O → Option (Done O)
    unfolding retry_from
    do_with_retry d pa env = retry_from (pos_part d.max_retries + 1) d pa env 0
