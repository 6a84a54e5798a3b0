-- ===== src/Stake/Tests.antt =====
-- A stake registration, a delegation, a pool retirement and a withdrawal over a table of pool hashes.
use nectar.Prelude.{
  sym, subst, some_injective, length, ◌==◌, ◌≡◌, refl, true, false, none, some, List, [], ◌∷◌, any,
  if◌then◌else◌, Text, text, text_eq, text_eq_refl, none_not_some, Option, arith,
}
use nectar.Prelude.Dict.{lookup}
use nectar.Prelude.Hex.{hex}
use nectar.Cache.Lru.{new}
use nectar.Cache.StakeAddress.{StakeTable, stored}
use nectar.Stake.Certificates.{
  Cert, stake_registration, stake_delegation, pool_retirement, unknown_certificate, StakeRow,
  pool_hash_row, pool_there, pool_missing, StakeDb, StakeState,
}
use nectar.Stake.Withdrawals.{process_withdrawal}
use nectar.Stake.Pools.{ensure_stake_address}
use nectar.Stake.Bulk.{WithdrawalItem, Alike, bulk_withdrawal, bulk_withdrawal-process_withdrawal}
use nectar.Stake.Credited.{Credited, process_withdrawal-Credited}
use nectar.Stake.Handlers.{process_certificates}
use nectar.Stake.Errorless.{certificate_states, process_certificates-Errorless}
use nectar.Stake.Backed.{PoolLaws, Backed}
use nectar.Stake.Kept.{process_certificates-Backed}

abbrev stakes : StakeTable (List Text)
stakes = record {
  first = λ hash w. (stored hash, w);
  create = λ hash view w. (true, w);
  none_affected = λ w. false;
}

abbrev after_insert : StakeRow → List Text → List Text
after_insert (pool_hash_row hash view) w = view ∷ w
after_insert _ w = w

abbrev db : StakeDb (List Text)
db = record {
  stakes = stakes;
  insert = λ row w. (none, after_insert row w);
  find_pool = λ hash w. if any (text_eq (hex hash)) w then pool_there else pool_missing;
  load_pools = λ w. none;
  slot_of = λ hash w. some 4500000;
  queue_metadata = λ pool url hash w. w;
  has_stake = λ hash w. true;
}

abbrev HasPool : Text → List Text → Type 0
HasPool k w = any (text_eq k) w ≡ true

after_insert-HasPool :
    (row : StakeRow) (k : Text) (w : List Text) → HasPool k w → HasPool k (after_insert row w)
after_insert-HasPool (pool_hash_row hash view) k w p = ground (arith, p)
after_insert-HasPool _ k w p = p

laws : PoolLaws db HasPool
laws = record {
  keeps_insert = after_insert-HasPool;
  keeps_first = λ hash k w p. p;
  keeps_create = λ hash view k w p. p;
  keeps_queue = λ pool url hash k w p. p;
  loaded = λ hashes w e. absurd (none_not_some e);
  found = λ hash w e. ground (arith, e);
  made = λ hash w e. rw (text_eq_refl (hex hash)) refl;
  duplicate = λ hash w e h c. absurd (none_not_some h);
}

abbrev start : StakeState (List Text)
start = record { world = []; stake_cache = new 4; pool_cache = []; warnings = [] }

abbrev address : Text
address = text "0123456789012345678901234567"

abbrev certs : List Cert
certs =
    stake_registration address
    ∷ stake_delegation (some address) (text "P")
    ∷ pool_retirement (text "Q") 300
    ∷ unknown_certificate
    ∷ []

process_certificates-Errorless_example :
    process_certificates db (text "T") 0 certs start
    ≡ (none, certificate_states db (text "T") 0 certs start)
process_certificates-Errorless_example = process_certificates-Errorless db (text "T") 0 certs start

start-Backed : Backed db HasPool laws start
unfolding Backed lookup
start-Backed k c = ground (arith, c)

process_certificates-Backed_example :
    Backed db HasPool laws (process_certificates db (text "T") 0 certs start).1
process_certificates-Backed_example =
    process_certificates-Backed db HasPool laws (text "T") 0 certs start start-Backed

-- the parser of an address that is its key
abbrev parse : Text → Option Text
parse account = some account

credited : (process_withdrawal parse db (text "T") address 5000000 start).0 ≡ none
unfolding process_withdrawal new
credited = refl

process_withdrawal-Credited_example :
    Credited parse db
      (text "T")
      address
      5000000
      start
      (process_withdrawal parse db (text "T") address 5000000 start).1.world
process_withdrawal-Credited_example =
    process_withdrawal-Credited parse db (text "T") address 5000000 start credited

abbrev item : WithdrawalItem
item = record { tx_hash = text "T"; reward_account = address; amount = 5000000 }

item_known :
    (key found : Text)
    → parse item.reward_account ≡ some key
    → (ensure_stake_address db key start).0 ≡ some found
    → ((length found == 28) ≡ true)
      × (db.has_stake found (ensure_stake_address db key start).1.world ≡ true)
unfolding ensure_stake_address new
item_known key found e m =
    let made : (ensure_stake_address db address start).0 ≡ some found =
      subst (λ k. (ensure_stake_address db k start).0 ≡ some found) (sym (some_injective e)) m in
    (subst (λ t. (length t == 28) ≡ true) (some_injective made) refl, refl)

bulk_withdrawal-process_withdrawal_example :
    Alike parse db
      (bulk_withdrawal parse db item start)
      (process_withdrawal parse db (text "T") address 5000000 start).1
bulk_withdrawal-process_withdrawal_example =
    bulk_withdrawal-process_withdrawal parse db item start item_known
