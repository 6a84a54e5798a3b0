-- ===== src/Retry/Loop.antt =====
-- `RetryTransaction` and `RetryOperation` of database/retry.go. They differ in how an attempt is
-- made, which is an argument here: the attempt gets the state of the world and returns what is
-- left of it, and its error (`none` is nil). The waits are collected in the order of the sleeps,
-- in nanoseconds; the factor 2.0 is exact on them.
use nectar.Prelude.{
  ℕ, zero, suc, ◌*◌, true, false, Option, none, some, List, [], ◌∷◌, ltb, if◌then◌else◌, Text,
}
use nectar.Retry.Classify.{is_retryable_error}

-- `DefaultRetryConfig`
pub record RetryConfig : Type 0 where
  pub max_retries : ℕ
  pub initial_delay : ℕ
  pub max_delay : ℕ
  pub factor : ℕ

abbrev pub default_retry_config : RetryConfig
default_retry_config = record {
  max_retries = 3;
  initial_delay = 100000000;
  max_delay = 5000000000;
  factor = 2;
}

-- `nil`, the error of an attempt that is not retried, or the error of the exhausted retries
pub data Outcome : Type 0 where
  succeeded : Outcome
  failed : Text → Outcome
  exhausted : ℕ → Outcome

pub record Finish (S : Type 0) : Type 0 where
  pub outcome : Outcome
  pub state : S
  pub sleeps : List ℕ
  pub attempts : ℕ

abbrev pub Attempt : Type 0 → Type 0
Attempt S = S → Option Text × S

unfoldable pub backoff : RetryConfig → ℕ → ℕ
backoff config delay =
    let next = delay * config.factor in if ltb config.max_delay next then config.max_delay else next

module _ {S : Type 0} (try : Attempt S) (config : RetryConfig) where
  -- The rounds of the loop from the given attempt on; `rounds` counts those that are left.
  unfoldable pub retry_from : ℕ → ℕ → ℕ → S → Finish S
  unfolding backoff is_retryable_error
  retry_from zero attempt delay s = record {
    outcome = exhausted config.max_retries;
    state = s;
    sleeps = [];
    attempts = attempt;
  }
  retry_from (suc rounds) attempt delay s =
      let (err, s') = try s in
      elim err [
        | none ↦ record { outcome = succeeded; state = s'; sleeps = []; attempts = suc attempt }
        | some e ↦
            let sleeping = ltb attempt config.max_retries in
            let rest =
              retry_from rounds (suc attempt) (if sleeping then backoff config delay else delay)
                s' in
            elim (is_retryable_error (some e)) [
              | false ↦ record {
                outcome = failed e;
                state = s';
                sleeps = [];
                attempts = suc attempt;
              }
              | true ↦ record rest {
                sleeps = if sleeping then delay ∷ rest.sleeps else rest.sleeps;
              }
            ]
      ]

-- `attempt <= config.MaxRetries`: one round more than the retries.
unfoldable pub retry : {S : Type 0} → Attempt S → S → Finish S
unfolding retry_from
retry try s =
    retry_from try default_retry_config (suc default_retry_config.max_retries) 0
      default_retry_config.initial_delay s
