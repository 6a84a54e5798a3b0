-- ===== src/Sync/Distance.antt =====
-- The distance to the tip and the points to resume from, in main.go.
use nectar.Prelude.{ℕ, ◌+◌, ◌-◌, ◌^◌, ◌≤◌, ◌<◌, ◌≡◌, none, some, [], ◌∷◌, arith, Text}
use nectar.Prelude.Int.{pos, to_uint64}
use nectar.Sync.Tip.{
  TipState, track_tip_distance, get_tip_distance, build_intersection_points, origin, point,
}

-- `getTipDistance` after `trackTipDistance`, for slots that are `uint64` and not 0: the distance
-- is what the processed slot is behind the tip's, and for a processed slot ahead of the tip's by
-- d it is 2^64 - d.
get_tip_distance-track :
    (now current slot block_no : ℕ) (hash : Text) (s : TipState)
    → 0 < slot
    → slot < 2 ^ 64
    → 0 < s.last_processed_slot
    → s.last_processed_slot < 2 ^ 64
    → let d = get_tip_distance (track_tip_distance now current slot block_no hash s) in
      (s.last_processed_slot ≤ slot → d + s.last_processed_slot ≡ slot)
      × (slot < s.last_processed_slot → d + (s.last_processed_slot - slot) ≡ 2 ^ 64)
unfolding get_tip_distance track_tip_distance
get_tip_distance-track now current slot block_no hash s h1 h2 h3 h4 = ground arith

-- With blocks in the database up to a slot above 20, `buildIntersectionPoints` resumes from the
-- latest block itself, not 20 slots before, with the origin as the other point; up to slot 20, or
-- without blocks, from the origin.
build_intersection_points-resume :
    (n : ℕ) (hash : Text)
    → n < 2 ^ 63
    → (20 < n
        → build_intersection_points (some (some (pos n))) (some (n, hash))
          ≡ point n hash ∷ origin ∷ [])
      × (n ≤ 20 → build_intersection_points (some (some (pos n))) (some (n, hash)) ≡ origin ∷ [])
      × (build_intersection_points (some none) none ≡ origin ∷ [])
unfolding build_intersection_points to_uint64
build_intersection_points-resume n hash h = ground arith
