-- ===== src/Block/Rolled.antt =====
-- What the retried transactions of processors/block_processor.go leave in the database.
use nectar.Prelude.{
  some_not_none, ℕ, zero, suc, ◌≡◌, ◌⊎◌, inl, inr, refl, ◌∙◌, Bool, true, false, Option, none, some,
  List, ◌∷◌, ltb, if◌then◌else◌, option-cases_eq, Text,
}
use nectar.Retry.Classify.{is_retryable_error}
use nectar.Retry.Loop.{
  RetryConfig, default_retry_config, succeeded, Finish, backoff, retry_from, retry,
}
use nectar.Block.Parts.{Processor, run_part, isolation}
use nectar.Block.Process.{Connection, transactional}

module _ {World : Type 0} (conn : Connection World) where
  -- An error leaves the world as it was.
  Safe : Processor World → Option Text × Processor World → Type 0
  Safe s p = (p.0 ≡ none) ⊎ (p.1.world ≡ s.world)

  transactional-Safe :
      (body : Processor World → Option Text × Processor World) (s : Processor World)
      → Safe s (transactional conn body s)
  unfolding transactional Safe
  transactional-Safe body s =
      let s1 = (body (run_part isolation conn.set_isolation s)).1 in
      option-cases_eq (Safe s) (body (run_part isolation conn.set_isolation s)).0 _ _
        (λ _. option-cases_eq (Safe s) (conn.commit s1.world) _ _ (λ _. inl refl) (λ e _. inr refl))
        (λ e _. inr refl)

  module _ (body : Processor World → Option Text × Processor World) where
    unfoldable pub Kept : Processor World → Finish (Processor World) → Type 0
    Kept s f = (f.outcome ≡ succeeded) ⊎ (f.state.world ≡ s.world)

    choice-Kept :
        (s : Processor World) (b : Bool) (x y : Finish (Processor World))
        → Kept s x
        → Kept s y
        → Kept s (elim b [ false ↦ x | true ↦ y ])
    choice-Kept s true x y h k = k
    choice-Kept s false x y h k = h

    resume-Kept :
        (s s' : Processor World) (f : Finish (Processor World)) (sleeps : List ℕ)
        → s'.world ≡ s.world
        → Kept s' f
        → Kept s (record f { sleeps = sleeps })
    unfolding Kept
    resume-Kept s s' f sleeps h (inl k) = inl k
    resume-Kept s s' f sleeps h (inr k) = inr (k ∙ h)

    unsucceeded :
        (s : Processor World) (e : Text)
        → (transactional conn body s).0 ≡ some e
        → (transactional conn body s).1.world ≡ s.world
    unfolding Safe
    unsucceeded s e h = elim (transactional-Safe body s) [ inl n ↦ absurd (cc) | inr k ↦ k ]

    retry_from-Kept :
        (config : RetryConfig) (rounds attempt delay : ℕ) (s : Processor World)
        → Kept s (retry_from (transactional conn body) config rounds attempt delay s)
    unfolding retry_from Kept
    retry_from-Kept config zero attempt delay s = inr refl
    retry_from-Kept config (suc rounds) attempt delay s =
        option-cases_eq (Kept s) (transactional conn body s).0 _ _ (λ _. inl refl)
          (λ e h.
            let s' = (transactional conn body s).1 in
            let sleeping = ltb attempt config.max_retries in
            let next = if sleeping then backoff config delay else delay in
            let rest = retry_from (transactional conn body) config rounds (suc attempt) next s' in
            choice-Kept s (is_retryable_error (some e)) _ _ (inr (unsucceeded s e h)) (
              resume-Kept s s' rest (if sleeping then delay ∷ rest.sleeps else rest.sleeps)
                (unsucceeded s e h) (retry_from-Kept config rounds (suc attempt) next s')))

    -- A transaction that is retried succeeds, or it leaves the database as it was, however many
    -- attempts are made.
    pub retry-Kept : (s : Processor World) → Kept s (retry (transactional conn body) s)
    unfolding retry
    retry-Kept s = retry_from-Kept default_retry_config 4 0 default_retry_config.initial_delay s

  -- An attempt without an error: its body gave none, and the state is as the body left it.
  transactional_committed :
      (body : Processor World → Option Text × Processor World) (s : Processor World)
      → (transactional conn body s).0 ≡ none
      → let r = body (run_part isolation conn.set_isolation s) in
        (r.0 ≡ none) × ((transactional conn body s).1 ≡ r.1)
  unfolding transactional
  transactional_committed body s =
      let r = body (run_part isolation conn.set_isolation s) in
      option-cases_eq (Committed r) r.0 _ _
        (λ o.
          option-cases_eq (Committed r) (conn.commit r.1.world) _ _ (λ _ _. (o, refl))
            (λ e _ n. absurd (some_not_none n)))
        (λ e _ n. absurd (some_not_none n))
    where
      Committed : Option Text × Processor World → Option Text × Processor World → Type 0
      Committed r p = p.0 ≡ none → (r.0 ≡ none) × (p.1 ≡ r.1)

  module _ (body : Processor World → Option Text × Processor World) where
    -- A success is that of an attempt on the world as it was before the first one.
    unfoldable pub Attempted : Processor World → Finish (Processor World) → Type 0
    Attempted s f =
        f.outcome ≡ succeeded
        → (s0 : Processor World) × (s0.world ≡ s.world)
          × (let r = body (run_part isolation conn.set_isolation s0) in
              (r.0 ≡ none) × (f.state ≡ r.1))

    choice-Attempted :
        (s : Processor World) (b : Bool) (x y : Finish (Processor World))
        → Attempted s x
        → Attempted s y
        → Attempted s (elim b [ false ↦ x | true ↦ y ])
    choice-Attempted s true x y h k = k
    choice-Attempted s false x y h k = h

    resume-Attempted :
        (s s' : Processor World) (f : Finish (Processor World)) (sleeps : List ℕ)
        → s'.world ≡ s.world
        → Attempted s' f
        → Attempted s (record f { sleeps = sleeps })
    unfolding Attempted
    resume-Attempted s s' f sleeps e k o = let (s0, h, r) = k o in (s0, h ∙ e, r)

    unended :
        (s : Processor World) (f : Finish (Processor World))
        → ¬ (f.outcome ≡ succeeded)
        → Attempted s f
    unfolding Attempted
    unended s f h o = absurd (h o)

    first_success :
        (s : Processor World) (f : Finish (Processor World))
        → f.state ≡ (transactional conn body s).1
        → (let r = body (run_part isolation conn.set_isolation s) in
            (r.0 ≡ none) × ((transactional conn body s).1 ≡ r.1))
        → Attempted s f
    unfolding Attempted
    first_success s f e (n, h) o = (s, refl, (n, e ∙ h))

    retry_from-Attempted :
        (config : RetryConfig) (rounds attempt delay : ℕ) (s : Processor World)
        → Attempted s (retry_from (transactional conn body) config rounds attempt delay s)
    unfolding retry_from
    retry_from-Attempted config zero attempt delay s = unended s _ (λ e. cc)
    retry_from-Attempted config (suc rounds) attempt delay s =
        option-cases_eq (Attempted s) (transactional conn body s).0 _ _
          (λ h. first_success s _ refl (transactional_committed body s h))
          (λ e h.
            let s' = (transactional conn body s).1 in
            let sleeping = ltb attempt config.max_retries in
            let next = if sleeping then backoff config delay else delay in
            let rest = retry_from (transactional conn body) config rounds (suc attempt) next s' in
            choice-Attempted s (is_retryable_error (some e)) _ _ (unended s _ (λ e. cc)) (
              resume-Attempted s s' rest (if sleeping then delay ∷ rest.sleeps else rest.sleeps)
                (unsucceeded body s e h)
                (retry_from-Attempted config rounds (suc attempt) next s')))

    pub retry-Attempted : (s : Processor World) → Attempted s (retry (transactional conn body) s)
    unfolding retry
    retry-Attempted s =
        retry_from-Attempted default_retry_config 4 0 default_retry_config.initial_delay s
