-- ===== src/Retry/RecoveryLaws.antt =====
-- The connection handler of database/connection_recovery.go over any sequence of events.
use nectar.Prelude.{
  Option-cases, ℕ, zero, suc, ◌≡◌, ◌⊎◌, refl, ◌∙◌, Bool, true, false, Option, none, some, List, [],
  ◌∷◌, if◌then◌else◌, arith, Bool-cases, inl, inr,
}
use nectar.Retry.Recovery.{
  Recovery, State, connect, reconnect_from, reconnect_with_backoff, get_db, check_health,
  automatic_recovery, Event, asks, ticks, recovers, step, steps,
}

module _ {H W : Type 0} (open_db : W → Option H × W) (ping : H → W → Bool × W) (now : W → ℕ) where
  -- A handler that counts as healthy has a connection.
  abbrev pub IsSound : Recovery H → Type 0
  IsSound r = r.is_healthy ≡ true → (h : H) × (r.db ≡ some h)

  abbrev Connected : Recovery H → Type 0
  Connected r = (h : H) × (r.db ≡ some h) × (r.is_healthy ≡ true)

  connect_opens :
      (r : Recovery H) (w : W) (h : H)
      → (open_db w).0 ≡ some h
      → let (done, (r', w')) = connect open_db ping now (r, w) in
        (done ≡ true) × (r'.db ≡ some h) × (r'.is_healthy ≡ true)
  unfolding connect
  connect_opens r w h e = ground arith

  connect_fails :
      (r : Recovery H) (w : W)
      → (open_db w).0 ≡ none
      → let (done, (r', w')) = connect open_db ping now (r, w) in (done ≡ false) × (r' ≡ r)
  unfolding connect
  connect_fails r w e = ground arith

  -- What an attempt, or a row of attempts, has done to the handler.
  abbrev Tried : Bool → Recovery H → Recovery H → Type 0
  Tried done r r' = (done ≡ true → Connected r') × (done ≡ false → r' ≡ r)

  connect-Tried :
      (r : Recovery H) (w : W)
      → let (done, (r', w')) = connect open_db ping now (r, w) in Tried done r r'
  connect-Tried r w = elim (Option-cases (open_db w).0) [
    | inl e ↦ let (no_one, same) = connect_fails r w e in ((λ t. cc), λ f. same)
    | inr (h, e) ↦
        let (yes_one, there, well) = connect_opens r w h e in ((λ t. (h, there, well)), λ f. cc)
  ]

  Tried-or :
      (b rest : Bool) (r : Recovery H) (s s' : State H W)
      → Tried b r s.0
      → Tried rest s.0 s'.0
      → Tried (if b then true else rest) r (if b then s else s').0
  Tried-or true rest r s s' h h' = ((λ t. h.0 refl), λ f. cc)
  Tried-or false rest r s s' h h' = (h'.0, λ f. h'.1 f ∙ h.1 refl)

  reconnect_from-Tried :
      (rounds attempt : ℕ) (r : Recovery H) (w : W)
      → let (done, _, (r', w')) = reconnect_from open_db ping now rounds attempt (r, w) in
        Tried done r r'
  unfolding reconnect_from
  reconnect_from-Tried zero attempt r w = ((λ t. cc), λ f. refl)
  reconnect_from-Tried (suc rounds) attempt r w =
      let s = (connect open_db ping now (r, w)).1 in
      let rest = reconnect_from open_db ping now rounds (suc attempt) s in
      Tried-or (connect open_db ping now (r, w)).0 rest.0 r s rest.2 (connect-Tried r w)
        (reconnect_from-Tried rounds (suc attempt) s.0 s.1)

  back_off-Tried :
      (r : Recovery H) (w : W)
      → let (done, _, (r', w')) = reconnect_with_backoff open_db ping now (r, w) in Tried done r r'
  unfolding reconnect_with_backoff
  back_off-Tried r w = reconnect_from-Tried 10 0 r w

  recovered-IsSound :
      (r : Recovery H) (w : W)
      → IsSound r
      → IsSound (reconnect_with_backoff open_db ping now (r, w)).2.0
  recovered-IsSound r w h t = elim (Bool-cases (reconnect_with_backoff open_db ping now (r, w)).0) [
    | inl done ↦ let (c, there, _) = (back_off-Tried r w).0 done in (c, there)
    | inr failed ↦ rw ((back_off-Tried r w).1 failed) (h (rw ((back_off-Tried r w).1 failed) at t))
  ]

  -- The two ways through `GetDB`.
  Keeps : Recovery H → W → Type 0
  Keeps r w =
      (h : H) × (get_db open_db ping now (r, w) ≡ (some h, (r, w)))
      × (r.db ≡ some h)
      × (r.is_healthy ≡ true)

  RecoversFirst : Recovery H → W → Type 0
  RecoversFirst r w =
      let (done, _, s) = reconnect_with_backoff open_db ping now (r, w) in
      (get_db open_db ping now (r, w) ≡ (if done then (s.0.db, s) else (none, s)))
      × ((r.db ≡ none) ⊎ (r.is_healthy ≡ false))

  get_db_cases : (r : Recovery H) (w : W) → Keeps r w ⊎ RecoversFirst r w
  unfolding Keeps RecoversFirst get_db
  get_db_cases r w = elim (Option-cases r.db) [
    | inl e ↦ inr (ground arith, inl e)
    | inr (h, e) ↦ elim (Bool-cases r.is_healthy) [
      | inl well ↦ inl (h, ground arith, e, well)
      | inr ill ↦ inr (ground arith, inr ill)
    ]
  ]

  if-state :
      (b : Bool) (o : Option H) (s : State H W)
      → (if◌then◌else◌ {A = Option H × State H W} b (o, s) (none, s)).1 ≡ s
  if-state true o s = refl
  if-state false o s = refl

  asks-IsSound : (r : Recovery H) (w : W) → IsSound r → IsSound (get_db open_db ping now (r, w)).1.0
  unfolding Keeps RecoversFirst
  asks-IsSound r w h = elim (get_db_cases r w) [
    | inl (c, e, _, _) ↦ rw e h
    | inr (e, _) ↦
        let (done, _, s) = reconnect_with_backoff open_db ping now (r, w) in
        rw (e, if-state done s.0.db s) (recovered-IsSound r w h)
  ]

  ticks-IsSound :
      (r : Recovery H) (w : W) → IsSound r → IsSound (check_health open_db ping now (r, w)).1.0
  unfolding check_health
  ticks-IsSound r w h t = elim (Option-cases r.db) [
    | inl e ↦ absurd (ground arith)
    | inr (c, e) ↦ (c, ground arith)
  ]

  alone_cases :
      (r : Recovery H) (w : W)
      → (automatic_recovery open_db ping now (r, w) ≡ (r, w))
        ⊎ (automatic_recovery open_db ping now (r, w)
            ≡ (reconnect_with_backoff open_db ping now (r, w)).2)
  unfolding automatic_recovery
  alone_cases r w = elim (Bool-cases r.is_healthy) [
    | inl well ↦ inl (ground arith)
    | inr ill ↦ inr (ground arith)
  ]

  alone-IsSound :
      (r : Recovery H) (w : W) → IsSound r → IsSound (automatic_recovery open_db ping now (r, w)).0
  alone-IsSound r w h = elim (alone_cases r w) [
    | inl e ↦ rw e h
    | inr e ↦ rw e (recovered-IsSound r w h)
  ]

  steps-IsSound :
      (es : List Event) (r : Recovery H) (w : W)
      → IsSound r
      → IsSound (steps open_db ping now es (r, w)).0
  unfolding steps step
  steps-IsSound [] r w h = h
  steps-IsSound (asks ∷ es) r w h =
      let s = (get_db open_db ping now (r, w)).1 in steps-IsSound es s.0 s.1 (asks-IsSound r w h)
  steps-IsSound (ticks ∷ es) r w h =
      let s = (check_health open_db ping now (r, w)).1 in
      steps-IsSound es s.0 s.1 (ticks-IsSound r w h)
  steps-IsSound (recovers ∷ es) r w h =
      let s = automatic_recovery open_db ping now (r, w) in
      steps-IsSound es s.0 s.1 (alone-IsSound r w h)

  -- From a sound handler, one that has a connection if it counts as healthy, and whatever the driver
  -- answers, every sequence of events leaves one that has a connection if it counts as healthy.
  pub steps_connected :
      (es : List Event) (r : Recovery H) (w : W)
      → IsSound r
      → (steps open_db ping now es (r, w)).0.is_healthy ≡ true
      → (h : H) × ((steps open_db ping now es (r, w)).0.db ≡ some h)
  steps_connected es r w h t = steps-IsSound es r w h t

  -- From a sound handler, `GetDB` either returns a connection, which the handler then has and
  -- counts as healthy, or it fails, and the handler is left unhealthy as it was.
  pub get_db_outcome :
      (r : Recovery H) (w : W)
      → IsSound r
      → let (got, (r', w')) = get_db open_db ping now (r, w) in
        ((h : H) × (got ≡ some h) × (r'.db ≡ some h) × (r'.is_healthy ≡ true))
        ⊎ ((got ≡ none) × (r' ≡ r) × (r.is_healthy ≡ false))
  unfolding Keeps RecoversFirst
  get_db_outcome r w sound = elim (get_db_cases r w) [
    | inl (h, e, there, well) ↦ rw e (inl (h, refl, there, well))
    | inr (e, why) ↦
        let (done, _, s) = reconnect_with_backoff open_db ping now (r, w) in
        elim (Bool-cases done) [
          | inl t ↦
              let (h, there, well) = (back_off-Tried r w).0 t in
              rw (e, t) (inl (h, there, there, well))
          | inr f ↦ rw (e, f) (inr (refl, (back_off-Tried r w).1 f, unhealthy r sound why))
        ]
  ]
    where
      unhealthy :
          (r : Recovery H)
          → IsSound r
          → (r.db ≡ none) ⊎ (r.is_healthy ≡ false)
          → r.is_healthy ≡ false
      unhealthy r sound (inr f) = f
      unhealthy r sound (inl n) = elim (Bool-cases r.is_healthy) [
        | inl t ↦ absurd (let (h, e) = sound t in cc)
        | inr f ↦ f
      ]
