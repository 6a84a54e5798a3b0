-- ===== src/Params/Backfill.antt =====
-- `ProvideEpochParams` and `BackfillEpochParams` against a table of rows by epoch.
use nectar.Prelude.{
  ℕ, zero, suc, ◌+◌, ◌-◌, ◌%◌, ◌^◌, ◌≤◌, ◌<◌, ◌≡◌, ◌≢◌, inl, inr, refl, ◌∙◌, Bool, true, false,
  Option, some, ltb, ◌==◌, ap, if◌then◌else◌, arith, Option-cases, Bool-cases,
}
use nectar.Params.Table.{EpochParam}
use nectar.Params.Provider.{
  params_for, complete, running, provide_epoch_params, backfill_from, backfill_epoch_params,
}

params_for-epoch : (n : ℕ) (p : EpochParam) → params_for n ≡ some p → p.epoch_no ≡ n
unfolding params_for
params_for-epoch n p h = ground arith

-- The state after the parameters of the epochs below `k`, from 0 on, each upserted once.
unfoldable pub provided : {Store : Type 0} → (EpochParam → Store → Store × Bool) → ℕ → Store → Store
unfolding provide_epoch_params
provided create zero s = s
provided create (suc k) s = (provide_epoch_params create k (provided create k s)).0

-- Rounds enough for the epochs that are left end the loop.
backfill_from-provided :
    {Store : Type 0} (create : EpochParam → Store → Store × Bool) (fuel epoch max_epoch : ℕ)
    (s : Store)
    → max_epoch < 2 ^ 32 - 1
    → epoch ≤ suc max_epoch
    → suc max_epoch - epoch < fuel
    → backfill_from create fuel epoch max_epoch (provided create epoch s)
      ≡ complete (provided create (suc max_epoch) s)
unfolding backfill_from provided
backfill_from-provided create zero epoch m s _ _ h = absurd (omega (arith, h))
backfill_from-provided create (suc fuel) epoch m s hm he hf = elim (Bool-cases (ltb m epoch)) [
  | inl t ↦
      let last : epoch ≡ suc m = ground (arith, t) in
      rw t (ap (λ k. complete (provided create k s)) last)
  | inr t ↦
      let wrap : (epoch + 1) % 2 ^ 32 ≡ suc epoch = ground arith in
      rw (t, wrap)
        (backfill_from-provided create fuel (suc epoch) m s hm (ground arith) (ground arith))
]

module _ {Store : Type 0} (create : EpochParam → Store → Store × Bool)
    (find : ℕ → Store → Option EpochParam)
    -- An upsert that succeeds stores its row and no other; one that fails stores nothing.
    (saved : (e : EpochParam) (s : Store) (n : ℕ)
      → (create e s).1 ≡ true
      → find n (create e s).0 ≡ (if n == e.epoch_no then some e else find n s))
    (failed : (e : EpochParam) (s : Store) (n : ℕ)
      → (create e s).1 ≡ false
      → find n (create e s).0 ≡ find n s) where
  provide-other :
      (k : ℕ) (s : Store) (n : ℕ) → n ≢ k → find n (provide_epoch_params create k s).0 ≡ find n s
  unfolding provide_epoch_params
  provide-other k s n h = elim (Option-cases (params_for k)) [
    | inl e ↦ ground arith
    | inr (p, e) ↦ elim (Bool-cases ((create p s).1)) [
      | inl t ↦ ground (arith, saved p s n t, params_for-epoch k p e)
      | inr t ↦ ground (arith, failed p s n t)
    ]
  ]

  provide_self :
      (k : ℕ) (s : Store)
      → let (s', ok) = provide_epoch_params create k s in
        find k s' ≡ (if ok then params_for k else find k s)
  unfolding provide_epoch_params
  provide_self k s = elim (Option-cases (params_for k)) [
    | inl e ↦ ground arith
    | inr (p, e) ↦ elim (Bool-cases ((create p s).1)) [
      | inl t ↦ ground (arith, saved p s k t, params_for-epoch k p e)
      | inr t ↦ ground (arith, failed p s k t)
    ]
  ]

  -- no row of a later epoch changes, and none after its epoch
  provided-above : (k n : ℕ) (s : Store) → k ≤ n → find n (provided create k s) ≡ find n s
  unfolding provided
  provided-above zero n s h = refl
  provided-above (suc k) n s h =
      provide-other k (provided create k s) n (omega (arith, h))
      ∙ provided-above k n s (omega (arith, h))

  later_step :
      (k n : ℕ) (s : Store)
      → n ≢ k
      → find n (provided create (suc k) s) ≡ find n (provided create k s)
  unfolding provided
  later_step k n s h = provide-other k (provided create k s) n h

  provided_later :
      (k n : ℕ) (s : Store)
      → n < k
      → find n (provided create k s) ≡ find n (provided create (suc n) s)
  provided_later zero n s h = absurd (omega (arith, h))
  provided_later (suc k) n s h = elim (Bool-cases (n == k)) [
    | inl e ↦ ap (λ m. find n (provided create (suc m) s)) (ground (arith, e))
    | inr e ↦ later_step k n s (ground (arith, e)) ∙ provided_later k n s (ground (arith, e, h))
  ]

  provided_row :
      (n : ℕ) (s : Store)
      → find n (provided create (suc n) s) ≡ (
          if (provide_epoch_params create n (provided create n s)).1
          then params_for n
          else find n s)
  unfolding provided
  provided_row n s =
      provide_self n (provided create n s)
      ∙ ap
          (λ x. if (provide_epoch_params create n (provided create n s)).1 then params_for n else x)
          (provided-above n n s (omega arith))

  -- Let an upsert without an error store its row and no other, and one with an error nothing.
  -- `BackfillEpochParams` with more rounds than epochs, when the highest epoch is not the highest
  -- `uint32`, completes after it has provided the parameters of the epochs 0 to the highest in
  -- this order. The row of such an epoch is its era's where the upsert gave no error in the state
  -- that the epochs before it left, and the one before the run where it gave one. No other row
  -- changes.
  pub backfill_epoch_params-completes :
      (fuel max_epoch : ℕ) (s : Store)
      → max_epoch < 2 ^ 32 - 1
      → suc max_epoch < fuel
      → let s' = provided create (suc max_epoch) s in
        (backfill_epoch_params create fuel (some max_epoch) s ≡ complete s')
        × ((n : ℕ)
            → n ≤ max_epoch
            → find n s' ≡ (
                if (provide_epoch_params create n (provided create n s)).1
                then params_for n
                else find n s))
        × ((n : ℕ) → max_epoch < n → find n s' ≡ find n s)
  unfolding backfill_epoch_params provided
  backfill_epoch_params-completes fuel m s hm hf = (
    backfill_from-provided create fuel 0 m s hm (omega arith) (omega (arith, hf)),
    (λ n h. provided_later (suc m) n s (omega (arith, h)) ∙ provided_row n s),
    (λ n h. provided-above (suc m) n s (omega (arith, h))),
  )

backfill_from-endless :
    {Store : Type 0} (create : EpochParam → Store → Store × Bool) (fuel epoch : ℕ) (s : Store)
    → epoch ≤ 2 ^ 32 - 1
    → (s' : Store) × (backfill_from create fuel epoch (2 ^ 32 - 1) s ≡ running s')
unfolding backfill_from
backfill_from-endless create zero epoch s h = (s, refl)
backfill_from-endless create (suc fuel) epoch s h =
    let (s', e) =
      backfill_from-endless create fuel ((epoch + 1) % 2 ^ 32)
        (provide_epoch_params create epoch s).0 (ground arith) in
    (s', ground (arith, e))

-- When the highest epoch is the highest `uint32`, `BackfillEpochParams` still runs after any
-- number of rounds.
backfill_epoch_params-endless :
    {Store : Type 0} (create : EpochParam → Store → Store × Bool) (fuel : ℕ) (s : Store)
    → (s' : Store) × (backfill_epoch_params create fuel (some (2 ^ 32 - 1)) s ≡ running s')
unfolding backfill_epoch_params
backfill_epoch_params-endless create fuel s = backfill_from-endless create fuel 0 s (ground arith)
