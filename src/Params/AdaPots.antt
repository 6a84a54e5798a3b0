-- ===== src/Params/AdaPots.antt =====
-- `AdaPotsCalculator` of processors/ada_pots_calculator.go. Its four sums are the results of
-- queries, none for one that fails; `create` is the upsert on slot_no, with whether it succeeded.
-- `int64` arithmetic wraps around.
use nectar.Prelude.{
  ℕ, zero, suc, ◌*◌, ◌/◌, Bool, Option, none, some, List, [], ◌∷◌, leb, if◌then◌else◌,
}
use nectar.Prelude.Int.{ℤ, pos, negsuc, ◌+ℤ◌, to_int64, to_uint64}

pub record AdaPots : Type 0 where
  pub slot_no : ℕ
  pub epoch_no : ℕ
  pub treasury : ℕ
  pub reserves : ℕ
  pub rewards : ℕ
  pub utxo : ℕ
  pub deposits : ℕ
  pub fees : ℕ

-- the sums over the database: of the unspent outputs, and by epoch
pub record Sums : Type 0 where
  pub utxo_total : Option ℤ
  pub fees_total : ℕ → Option ℤ
  pub deposits_total : ℕ → Option ℤ
  pub rewards_total : ℕ → Option ℤ

abbrev pub total_ada_supply : ℕ
total_ada_supply = 45000000000000000

-- the `int64` that a result wraps around to
abbrev pub int64 : ℤ → ℤ
int64 z = to_int64 (to_uint64 z)

abbrev pub negative : ℕ → ℤ
negative zero = pos 0
negative (suc n) = negsuc n

infixl 65 ◌-ℤ◌
abbrev pub ◌-ℤ◌ : ℤ → ℤ → ℤ
a -ℤ pos n = a +ℤ negative n
a -ℤ negsuc n = a +ℤ pos (suc n)

abbrev pub hundredth : ℤ → ℤ
hundredth (pos n) = pos (n / 100)
hundredth (negsuc n) = negative (suc n / 100)

-- `x * 20 / 100`, where the division truncates
abbrev pub fifth : ℤ → ℤ
fifth (pos n) = hundredth (int64 (pos (n * 20)))
fifth (negsuc n) = hundredth (int64 (negative (suc n * 20)))

abbrev pub treasury_estimate : ℕ → ℤ → ℤ
treasury_estimate epoch_no fees = if leb 208 epoch_no then fifth fees else pos 0

-- `TOTAL_ADA_SUPPLY - utxoTotal - treasuryEstimate - rewardsTotal`
abbrev pub reserves_of : ℤ → ℤ → ℤ → ℤ
reserves_of utxo treasury rewards =
    int64 (int64 (int64 (pos total_ada_supply -ℤ utxo) -ℤ treasury) -ℤ rewards)

-- the record for the database, from the sums
unfoldable pub ada_pots : ℕ → ℕ → ℤ → ℤ → ℤ → ℤ → AdaPots
unfolding ◌+ℤ◌ to_int64 to_uint64
ada_pots epoch_no slot_no utxo fees deposits rewards =
    let treasury = treasury_estimate epoch_no fees in
    record {
      slot_no = slot_no;
      epoch_no = epoch_no;
      treasury = to_uint64 treasury;
      reserves = to_uint64 (reserves_of utxo treasury rewards);
      rewards = to_uint64 rewards;
      utxo = to_uint64 utxo;
      deposits = to_uint64 deposits;
      fees = to_uint64 fees;
    }

pub data Calculation : Type 0 where
  utxo_failed fees_failed deposits_failed rewards_failed save_failed saved : Calculation

module _ {Store : Type 0} (sums : Sums) (create : AdaPots → Store → Store × Bool) where
  -- `CalculateAdaPotsForEpoch`
  unfoldable pub calculate_ada_pots_for_epoch : ℕ → ℕ → Store → Store × Calculation
  unfolding ada_pots
  calculate_ada_pots_for_epoch epoch_no slot_no s = elim sums.utxo_total [
    | none ↦ (s, utxo_failed)
    | some utxo ↦ elim (sums.fees_total epoch_no) [
      | none ↦ (s, fees_failed)
      | some fees ↦ elim (sums.deposits_total epoch_no) [
        | none ↦ (s, deposits_failed)
        | some deposits ↦ elim (sums.rewards_total epoch_no) [
          | none ↦ (s, rewards_failed)
          | some rewards ↦
              let (s', ok) = create (ada_pots epoch_no slot_no utxo fees deposits rewards) s in
              (s', (if ok then saved else save_failed))
        ]
      ]
    ]
  ]

  -- `BackfillAdaPots` over the epochs that its query found: an error is logged and passed over.
  unfoldable pub backfill_ada_pots : List (ℕ × ℕ) → Store → Store
  unfolding calculate_ada_pots_for_epoch
  backfill_ada_pots [] s = s
  backfill_ada_pots ((epoch_no, slot_no) ∷ epochs) s =
      backfill_ada_pots epochs (calculate_ada_pots_for_epoch epoch_no slot_no s).0
