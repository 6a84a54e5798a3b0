-- ===== src/Errors/Agreement.antt =====
-- The two interceptors of the database's messages: errors/stderr_interceptor.go and
-- errors/mysql_logger.go.
use nectar.Prelude.{
  ◌≡◌, ◌⊎◌, inl, inr, refl, Bool, true, false, ◌&&◌, if◌then◌else◌, List, [], ◌∷◌, any, Text, text,
  contains, arith,
}
use nectar.Errors.LogLines.{Reported, to_lower}
use nectar.Errors.Intercepted.{packets_category, connection_category, other_category, categorize}
use nectar.Errors.DriverLog.{
  driver_packets_category, driver_connection_category, driver_other_category, driver_category,
}

-- One type and one component; one operation as well, but for the two names of none.
unfoldable pub Agree : Reported → Reported → Type 0
Agree r q =
    (r.error_type ≡ q.error_type)
    × (r.component ≡ q.component)
    × ((r.operation ≡ q.operation)
        ⊎ ((r.operation ≡ text "Unknown") × (q.operation ≡ text "Connection")))

-- the patterns that only one of the interceptors knows
abbrev pub own_patterns : List Text
own_patterns =
    text "packets out of order"
    ∷ text "connection reset"
    ∷ text "commands out of sync"
    ∷ text "connection refused"
    ∷ text "invalid connection"
    ∷ []

both-Agree :
    (b : Bool) (x y u v : Reported)
    → Agree x u
    → Agree y v
    → Agree (if b then x else y) (if b then u else v)
both-Agree true x y u v p q = p
both-Agree false x y u v p q = q

left-Agree : (b : Bool) (x y v : Reported) → b ≡ false → Agree y v → Agree (if b then x else y) v
left-Agree true x y v e q = absurd (cc e)
left-Agree false x y v e q = q

right-Agree : (b : Bool) (y u v : Reported) → b ≡ false → Agree y v → Agree y (if b then u else v)
right-Agree true y u v e q = absurd (cc e)
right-Agree false y u v e q = q

-- two tests in either order, of which one holds at most
swapped-Agree :
    (a b : Bool) (x y z u v w : Reported)
    → (b && a) ≡ false
    → Agree x v
    → Agree y u
    → Agree z w
    → Agree (if a then x else if b then y else z) (if b then u else if a then v else w)
swapped-Agree true true x y z u v w e p q r = absurd (cc e)
swapped-Agree true false x y z u v w e p q r = p
swapped-Agree false true x y z u v w e p q r = q
swapped-Agree false false x y z u v w e p q r = r

same :
    (r q : Reported)
    → r.error_type ≡ q.error_type
    → r.component ≡ q.component
    → r.operation ≡ q.operation
    → Agree r q
unfolding Agree
same r q t c o = (t, c, inl o)

unnamed :
    (r q : Reported)
    → r.error_type ≡ q.error_type
    → r.component ≡ q.component
    → r.operation ≡ text "Unknown"
    → q.operation ≡ text "Connection"
    → Agree r q
unfolding Agree
unnamed r q t c o p = (t, c, inr (o, p))

packets-Agree :
    (line low : Text)
    → contains (text "packets out of order") low ≡ false
    → Agree (packets_category line low) (driver_packets_category line low)
unfolding packets_category driver_packets_category
packets-Agree line low h =
    both-Agree (contains (text "unexpected seq nr") low) _ _ _ _ (same _ _ refl refl refl) (
      both-Agree (contains (text "unexpected eof") low) _ _ _ _ (same _ _ refl refl refl) (
        left-Agree (contains (text "packets out of order") low) _ _ _ h
          (unnamed _ _ refl refl refl refl)))

connection-Agree :
    (line low : Text)
    → contains (text "connection reset") low ≡ false
    → Agree (connection_category line low) (driver_connection_category line low)
unfolding connection_category driver_connection_category
connection-Agree line low h =
    both-Agree (contains (text "busy buffer") low) _ _ _ _ (same _ _ refl refl refl) (
      both-Agree (contains (text "bad connection") low) _ _ _ _ (same _ _ refl refl refl) (
        left-Agree (contains (text "connection reset") low) _ _ _ h
          (unnamed _ _ refl refl refl refl)))

other-Agree :
    (line low : Text)
    → contains (text "commands out of sync") low ≡ false
    → contains (text "connection refused") low ≡ false
    → contains (text "invalid connection") low ≡ false
    → (contains (text "deadlock") low && contains (text "too many connections") low) ≡ false
    → Agree (other_category line low) (driver_other_category line low)
unfolding other_category driver_other_category
other-Agree line low s r i d = left-Agree (contains (text "commands out of sync") low) _ _ _ s (
    both-Agree (contains (text "broken pipe") low) _ _ _ _ (same _ _ refl refl refl) (
      left-Agree (contains (text "connection refused") low) _ _ _ r (
        right-Agree (contains (text "invalid connection") low) _ _ _ i (
          both-Agree (contains (text "timeout") low) _ _ _ _ (same _ _ refl refl refl) (
            swapped-Agree (contains (text "too many connections") low)
              (contains (text "deadlock") low) _ _ _ _ _ _ d (same _ _ refl refl refl)
              (same _ _ refl refl refl) (unnamed _ _ refl refl refl refl))))))

-- For a line without the patterns that only one of them knows, and without a deadlock and too many
-- connections at once, the interceptor of the standard error and that of the driver's log report
-- one type of error and one component, and one operation, except that what the former calls
-- unknown is a connection to the latter.
pub categorize-driver_category :
    (line : Text)
    → any (λ p. contains p (to_lower line)) own_patterns ≡ false
    → (contains (text "deadlock") (to_lower line)
        && contains (text "too many connections") (to_lower line))
      ≡ false
    → Agree (categorize line) (driver_category line)
unfolding categorize driver_category
categorize-driver_category line h d =
    let low = to_lower line in
    both-Agree (contains (text "packets.go") low) _ _ _ _
      (packets-Agree line low (ground (arith, h)))
      (both-Agree (contains (text "connection.go") low) _ _ _ _
        (connection-Agree line low (ground (arith, h)))
        (other-Agree line low (ground (arith, h)) (ground (arith, h)) (ground (arith, h)) d))
