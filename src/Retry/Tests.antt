-- ===== src/Retry/Tests.antt =====
-- The retry loops and the connection handler with small operations and drivers.
use nectar.Prelude.{
  ℕ, suc, ◌≡◌, refl, Bool, true, false, Option, none, some, List, [], ◌∷◌, ltb, if◌then◌else◌, text,
  arith,
}
use nectar.Retry.Loop.{Attempt, default_retry_config, retry}
use nectar.Retry.LoopLaws.{Fails, Ends, retry-Ends}
use nectar.Retry.Recovery.{
  new_recovery, Event, asks, ticks, recovers, steps, reconnect_with_backoff,
}
use nectar.Retry.RecoveryLaws.{IsSound, steps_connected}

-- an operation that fails twice
abbrev twice : Attempt ℕ
twice n = (if ltb n 2 then some (text "bad connection") else none, suc n)

retry-Ends_example :
    (n : ℕ) × (s' : ℕ) × Fails twice n 0 s' × Ends twice default_retry_config 4 n s' (retry twice 0)
retry-Ends_example = retry-Ends twice 0

-- a driver that connects from the third attempt on, and whose pings fail
abbrev open_third : ℕ → Option ℕ × ℕ
open_third w = (if ltb w 2 then none else some w, suc w)

abbrev no_ping : ℕ → ℕ → Bool × ℕ
no_ping h w = (false, suc w)

abbrev clock : ℕ → ℕ
clock w = w

abbrev events : List Event
events = ticks ∷ asks ∷ recovers ∷ []

new_recovery-IsSound : IsSound open_third no_ping clock new_recovery
unfolding new_recovery
new_recovery-IsSound h = ground (arith, h)

healthy : (steps open_third no_ping clock events (new_recovery, 0)).0.is_healthy ≡ true
unfolding steps new_recovery reconnect_with_backoff
healthy = refl

steps_connected_example :
    (h : ℕ) × ((steps open_third no_ping clock events (new_recovery, 0)).0.db ≡ some h)
steps_connected_example =
    steps_connected open_third no_ping clock events new_recovery 0 new_recovery-IsSound healthy
