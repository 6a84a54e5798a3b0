-- ===== src/Metadata/Identifiers.antt =====
-- The pseudo-IDs that `hashToID` of metadata/fetcher.go makes of hashes.
use nectar.Prelude.{ℕ, ◌+◌, ◌*◌, ◌-◌, ◌%◌, ◌^◌, ◌<◌, ◌≡◌, ◌⊎◌, [], ◌∷◌, take, Text, arith}
use nectar.Prelude.Int.{ℤ, pos, negsuc, to_int64}
use nectar.Metadata.Requests.{shift_in, make_positive, hash_to_id}

shift_in-lt : (bs : Text) (id : ℕ) → id < 2 ^ 64 → shift_in id bs < 2 ^ 64
unfolding shift_in
shift_in-lt [] id h = h
shift_in-lt (b ∷ bs) id h = shift_in-lt bs ((id * 256 + b) % 2 ^ 64) (omega arith)

abbrev pub Signed : ℕ → ℤ → Type 0
Signed n z = ((n ≡ 2 ^ 63) × (z ≡ negsuc (2 ^ 63 - 1))) ⊎ ((k : ℕ) × (z ≡ pos k) × (k < 2 ^ 63))

make_positive-Signed : (n : ℕ) → n < 2 ^ 64 → Signed n (make_positive (to_int64 n))
unfolding to_int64
make_positive-Signed n h = ground arith

-- The ID of a hash is a number from 0 to 2^63 - 1, except for the hashes whose first eight bytes
-- make the number 2^63, whose ID is -2^63.
hash_to_id-Signed : (hash : Text) → Signed (shift_in 0 (take 8 hash)) (hash_to_id hash)
unfolding hash_to_id
hash_to_id-Signed hash = make_positive-Signed _ (shift_in-lt (take 8 hash) 0 (omega arith))
