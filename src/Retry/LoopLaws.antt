-- ===== src/Retry/LoopLaws.antt =====
-- What the retry loops of database/retry.go do, against a description of the attempts alone.
use nectar.Prelude.{
  ℕ, zero, suc, ◌+◌, ◌≤◌, ◌<◌, ◌≡◌, refl, ap, ◌∙◌, ◌⊎◌, inl, inr, true, false, none, some, List, [],
  ◌∷◌, ltb, if◌then◌else◌, Text, take, arith, Bool-cases, Option-cases, tests,
}
use nectar.Retry.Classify.{is_retryable_error}
use nectar.Retry.Loop.{
  RetryConfig, default_retry_config, succeeded, failed, exhausted, Finish, Attempt, backoff,
  retry_from, retry,
}

module _ {S : Type 0} (try : Attempt S) where
  -- That many attempts in a row fail with retryable errors, from one state to another.
  abbrev pub Fails : ℕ → S → S → Type 0
  Fails zero s s' = s ≡ s'
  Fails (suc n) s s' = (is_retryable_error (try s).0 ≡ true) × Fails n (try s).1 s'

  -- How a loop with that many rounds ends after so many retryable failures: the next attempt
  -- succeeds, or fails for good, or there is no round left.
  abbrev pub Ends : RetryConfig → ℕ → ℕ → S → Finish S → Type 0
  Ends config rounds n s f =
      ((n < rounds) × ((try s).0 ≡ none) × (f.outcome ≡ succeeded) × (f.state ≡ (try s).1))
      ⊎ ((e : Text) × (n < rounds)
          × ((try s).0 ≡ some e)
          × (is_retryable_error (some e) ≡ false)
          × (f.outcome ≡ failed e)
          × (f.state ≡ (try s).1))
      ⊎ ((n ≡ rounds) × (f.outcome ≡ exhausted config.max_retries) × (f.state ≡ s))

  module _ (config : RetryConfig) where
    step_succeeds :
        (rounds attempt delay : ℕ) (s : S)
        → (try s).0 ≡ none
        → let f = retry_from try config (suc rounds) attempt delay s in
          (f.outcome ≡ succeeded)
          × (f.state ≡ (try s).1)
          × (f.sleeps ≡ [])
          × (f.attempts ≡ suc attempt)
    unfolding retry_from
    step_succeeds rounds attempt delay s e = ground arith

    step_fails :
        (rounds attempt delay : ℕ) (s : S) (err : Text)
        → (try s).0 ≡ some err
        → is_retryable_error (some err) ≡ false
        → let f = retry_from try config (suc rounds) attempt delay s in
          (f.outcome ≡ failed err)
          × (f.state ≡ (try s).1)
          × (f.sleeps ≡ [])
          × (f.attempts ≡ suc attempt)
    unfolding retry_from
    step_fails rounds attempt delay s err e r = ground arith

    step_retries :
        (rounds attempt delay : ℕ) (s : S) (err : Text)
        → (try s).0 ≡ some err
        → is_retryable_error (some err) ≡ true
        → let f = retry_from try config (suc rounds) attempt delay s in
          let sleeping = ltb attempt config.max_retries in
          let rest =
            retry_from try config rounds
              (suc attempt)
              (if sleeping then backoff config delay else delay)
              (try s).1 in
          (f.outcome ≡ rest.outcome)
          × (f.state ≡ rest.state)
          × (f.attempts ≡ rest.attempts)
          × (f.sleeps ≡ (if sleeping then delay ∷ rest.sleeps else rest.sleeps))
    unfolding retry_from
    step_retries rounds attempt delay s err e r = ground arith

    Ends-step :
        (rounds n : ℕ) (s : S) (f rest : Finish S)
        → f.outcome ≡ rest.outcome
        → f.state ≡ rest.state
        → Ends config rounds n s rest
        → Ends config (suc rounds) (suc n) s f
    Ends-step rounds n s f rest o st (inl (lt, e, ro, rs)) = inl (omega arith, e, o ∙ ro, st ∙ rs)
    Ends-step rounds n s f rest o st (inr (inl (err, lt, e, r, ro, rs))) =
        inr (inl (err, omega arith, e, r, o ∙ ro, st ∙ rs))
    Ends-step rounds n s f rest o st (inr (inr (eq, ro, rs))) =
        inr (inr (omega arith, o ∙ ro, st ∙ rs))

    retry_from-Ends :
        (rounds attempt delay : ℕ) (s : S)
        → (n : ℕ) × (s' : S) × Fails n s s'
          × Ends config rounds n s' (retry_from try config rounds attempt delay s)
    unfolding retry_from
    retry_from-Ends zero attempt delay s = (0, s, refl, inr (inr (refl, refl, refl)))
    retry_from-Ends (suc rounds) attempt delay s = elim (Option-cases (try s).0) [
      | inl e ↦
          let (o, st, _, _) = step_succeeds rounds attempt delay s e in
          (0, s, refl, inl (omega arith, e, o, st))
      | inr (err, e) ↦ elim (Bool-cases (is_retryable_error (some err))) [
        | inl again ↦
            let d : ℕ = if ltb attempt config.max_retries then backoff config delay else delay in
            let (o, st, _, _) = step_retries rounds attempt delay s err e again in
            let (n, s', fails, ends) = retry_from-Ends rounds (suc attempt) d (try s).1 in
            (
              suc n,
              s',
              (rw e again, fails),
              Ends-step rounds n s' (retry_from try config (suc rounds) attempt delay s)
                  (retry_from try config rounds (suc attempt) d (try s).1) o st ends,
            )
        | inr final ↦
            let (o, st, _, _) = step_fails rounds attempt delay s err e final in
            (0, s, refl, inr (inl (err, omega arith, e, final, o, st)))
      ]
    ]

    -- the delays that follow one another from a first one
    abbrev pub delays : ℕ → ℕ → List ℕ
    delays zero d = []
    delays (suc n) d = d ∷ delays n (backoff config d)

    -- one round, or the last of a row of rounds
    Sleeps : ℕ → ℕ → ℕ → Finish S → Type 0
    Sleeps rounds attempt delay f =
        (m : ℕ) × (f.sleeps ≡ delays m delay) × (f.attempts ≡ suc (attempt + m)) × (m ≤ rounds)

    done_or_again :
        (rounds attempt delay : ℕ) (s : S)
        → Sleeps rounds attempt delay (retry_from try config (suc rounds) attempt delay s)
          ⊎ ((err : Text) × ((try s).0 ≡ some err) × (is_retryable_error (some err) ≡ true))
    unfolding Sleeps
    done_or_again rounds attempt delay s = elim (Option-cases (try s).0) [
      | inl e ↦
          let (_, _, sl, at) = step_succeeds rounds attempt delay s e in
          inl (0, sl, omega (arith, at), omega arith)
      | inr (err, e) ↦ elim (Bool-cases (is_retryable_error (some err))) [
        | inl again ↦ inr (err, e, again)
        | inr final ↦
            let (_, _, sl, at) = step_fails rounds attempt delay s err e final in
            inl (0, sl, omega (arith, at), omega arith)
      ]
    ]

    no_rounds :
        (attempt delay : ℕ) (s : S)
        → let f = retry_from try config 0 attempt delay s in
          (f.sleeps ≡ []) × (f.attempts ≡ attempt)
    unfolding retry_from
    no_rounds attempt delay s = (refl, refl)

    retry_from-Sleeps :
        (rounds attempt delay : ℕ) (s : S)
        → attempt + rounds ≡ config.max_retries
        → Sleeps rounds attempt delay (retry_from try config (suc rounds) attempt delay s)
    unfolding Sleeps
    retry_from-Sleeps zero attempt delay s h = elim (done_or_again 0 attempt delay s) [
      | inl done ↦ done
      | inr (err, e, again) ↦
          let asleep : ltb attempt config.max_retries ≡ false = ground arith in
          let (_, _, at, sl) = step_retries 0 attempt delay s err e again in
          let (none_left, count) = no_rounds (suc attempt) delay (try s).1 in
          (0, (rw asleep at sl) ∙ none_left, (rw asleep at at) ∙ count ∙ omega arith, omega arith)
    ]
    retry_from-Sleeps (suc rounds) attempt delay s h =
        elim (done_or_again (suc rounds) attempt delay s) [
          | inl done ↦ done
          | inr (err, e, again) ↦
              let awake : ltb attempt config.max_retries ≡ true = omega tests in
              let (_, _, at, sl) = step_retries (suc rounds) attempt delay s err e again in
              let (m, ih, count, le) =
                retry_from-Sleeps rounds (suc attempt) (backoff config delay) (try s).1
                  (omega arith) in
              (
                suc m,
                (rw awake at sl) ∙ ap (◌∷◌ delay) ih,
                (rw awake at at) ∙ count ∙ omega arith,
                omega arith,
              )
        ]

  -- A retried operation is attempted until an attempt succeeds or fails with an error that is not
  -- retryable, and then returns what that attempt returned and left; after four retryable failures
  -- in a row it returns the error of the exhausted retries, in the state that the last one left.
  pub retry-Ends :
      (s : S) → (n : ℕ) × (s' : S) × Fails n s s' × Ends default_retry_config 4 n s' (retry try s)
  unfolding retry
  retry-Ends s = retry_from-Ends default_retry_config 4 0 100000000 s

  -- Every retried operation makes between one and four attempts, and between them waits first
  -- 100, then 200, then 400 milliseconds, with no wait after the last attempt.
  pub retry_sleeps :
      (s : S)
      → (m : ℕ) × (m ≤ 3)
        × ((retry try s).attempts ≡ suc m)
        × ((retry try s).sleeps ≡ take m (100000000 ∷ 200000000 ∷ 400000000 ∷ []))
  unfolding retry Sleeps
  retry_sleeps s =
      let (m, sl, at, le) = retry_from-Sleeps default_retry_config 3 0 100000000 s refl in
      (m, le, omega (arith, at), sl ∙ first_delays m le)
    where
      first_delays :
          (m : ℕ)
          → m ≤ 3
          → delays default_retry_config m 100000000
            ≡ take m (100000000 ∷ 200000000 ∷ 400000000 ∷ [])
      first_delays zero h = refl
      first_delays (suc zero) h = refl
      first_delays (suc (suc zero)) h = refl
      first_delays (suc (suc (suc zero))) h = refl
      first_delays (suc (suc (suc (suc m)))) h = absurd (omega arith)
