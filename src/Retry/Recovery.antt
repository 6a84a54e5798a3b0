-- ===== src/Retry/Recovery.antt =====
-- `ConnectionRecovery` of database/connection_recovery.go. The driver (gorm, MySQL), the clock and
-- the callback are arguments: `open` makes the attempt to connect that `connect` describes up to
-- the callback and gives the new handle or an error, and `ping` tests a handle; both may change
-- the world. The mutex makes each method one step.
use nectar.Prelude.{
  ℕ, zero, suc, ◌*◌, ◌-◌, ◌^◌, Bool, true, false, Option, none, some, List, [], ◌∷◌, ltb,
  if◌then◌else◌,
}

pub record Recovery (H : Type 0) : Type 0 where
  pub db : Option H
  pub is_healthy : Bool
  pub last_health_check : ℕ
  pub reconnect_attempts : ℕ
  pub max_reconnect_delay : ℕ

-- Seconds: the delays are whole seconds.
unfoldable pub new_recovery : {H : Type 0} → Recovery H
new_recovery = record {
  db = none;
  is_healthy = false;
  last_health_check = 0;
  reconnect_attempts = 0;
  max_reconnect_delay = 30;
}

abbrev pub State : Type 0 → Type 0 → Type 0
State H W = Recovery H × W

-- What may happen to a recovery handler: a client asks for the connection, the ticker fires, a
-- started recovery gets the mutex.
pub data Event : Type 0 where
  asks ticks recovers : Event

-- `baseDelay * time.Duration(1<<uint(attempt-1))`, cut to the maximum
unfoldable pub reconnect_delay : ℕ → ℕ → ℕ
reconnect_delay max_delay attempt =
    let delay = 1 * 2 ^ (attempt - 1) in if ltb max_delay delay then max_delay else delay

module _ {H W : Type 0} (open_db : W → Option H × W) (ping : H → W → Bool × W) (now : W → ℕ) where
  -- `connect`: true is a nil error
  unfoldable pub connect : State H W → Bool × State H W
  connect (r, w) =
      let (opened, w') = open_db w in
      elim opened [
        | none ↦ (false, (r, w'))
        | some h ↦ (
          true,
          (
            record r {
              db = some h;
              is_healthy = true;
              last_health_check = now w';
              reconnect_attempts = 0;
            },
            w',
          ),
        )
      ]

  -- The rounds of `reconnectWithBackoff` from an attempt on: whether one connects, the sleeps, and
  -- the state.
  unfoldable pub reconnect_from : ℕ → ℕ → State H W → Bool × List ℕ × State H W
  unfolding connect reconnect_delay
  reconnect_from zero attempt s = (false, [], s)
  reconnect_from (suc rounds) attempt s =
      let (done, s') = connect s in
      let (rest, sleeps, s'') = reconnect_from rounds (suc attempt) s' in
      let after = if done then [] else sleeps in
      (
        if done then true else rest,
        if ltb 0 attempt then reconnect_delay s.0.max_reconnect_delay attempt ∷ after else after,
        if done then s' else s'',
      )

  unfoldable pub reconnect_with_backoff : State H W → Bool × List ℕ × State H W
  unfolding reconnect_from
  reconnect_with_backoff = reconnect_from 10 0

  -- `GetDB`: the handle, or `none` for an error
  unfoldable pub get_db : State H W → Option H × State H W
  get_db (r, w) =
      let (done, _, (r', w')) = reconnect_with_backoff (r, w) in
      let recovered : Option H × State H W = if done then (r'.db, (r', w')) else (none, (r', w')) in
      elim r.db [ none ↦ recovered | some h ↦ if r.is_healthy then (some h, (r, w)) else recovered ]

  -- `checkHealth`, without the recovery that it starts after a failed ping: true is the start of
  -- one. An open connection is taken to give its handle: where `DB()` fails, which is not modelled,
  -- the source marks the connection as unhealthy and starts no recovery.
  unfoldable pub check_health : State H W → Bool × State H W
  check_health (r, w) = elim r.db [
    | none ↦ (false, (record r { is_healthy = false }, w))
    | some h ↦
        let (alive, w') = ping h w in
        if alive
        then (false, (record r { is_healthy = true; last_health_check = now w' }, w'))
        else (true, (record r { is_healthy = false }, w'))
  ]

  -- The recovery that runs on its own after a failed ping.
  unfoldable pub automatic_recovery : State H W → State H W
  automatic_recovery (r, w) =
      let (_, _, s) = reconnect_with_backoff (r, w) in if r.is_healthy then (r, w) else s

  unfoldable pub step : Event → State H W → State H W
  unfolding get_db check_health automatic_recovery
  step asks s = (get_db s).1
  step ticks s = (check_health s).1
  step recovers s = automatic_recovery s

  unfoldable pub steps : List Event → State H W → State H W
  unfolding step
  steps [] s = s
  steps (e ∷ es) s = steps es (step e s)
