-- ===== src/Governance/Lost.antt =====
-- The votes of stake pools in processors/governance_processor.go.
use nectar.Prelude.{
  ℕ, suc, ◌+◌, ◌≡◌, refl, subst, sym, ap, ◌∙◌, arith, false, Option, none, some, List, [], ◌∷◌,
  ◌++◌, length, length-append, Text, text, text_discrete,
}
use nectar.Prelude.Hex.{hex}
use nectar.Prelude.Dict.{lookup}
use nectar.Cache.Existence.{is_cached}
use nectar.Governance.Rows.{Voter, Vote, pool_row, GovTables, GovState}
use nectar.Governance.Votes.{
  ensure_voting_pool, ensure_voter, process_voting_procedure, reported_vote, process_votes,
}

module _ {World : Type 0} (tables : GovTables World) (tx_hash hash : Text) where
  abbrev pool : Voter
  pool = record { voter_type = 4; hash = hash }

  -- The insert of the pool's row is refused, and changes nothing.
  abbrev pub IsRefused : World → Type 0
  IsRefused w =
      (e : Text) × ((tables.create (pool_row hash (hex hash)) w).0 ≡ some e)
      × ((tables.create (pool_row hash (hex hash)) w).1 ≡ w)

  -- The processor has not made the pool's row.
  abbrev pub IsNew : GovState World → Type 0
  IsNew s = is_cached (lookup text_discrete (hex hash) s.pool_cache) ≡ false

  pool_refused :
      (s : GovState World) (e : Text)
      → IsNew s
      → (tables.create (pool_row hash (hex hash)) s.world).0 ≡ some e
      → ensure_voter tables pool s ≡ (
        some (text "failed to create pool hash: " ++ e),
        record s { world = (tables.create (pool_row hash (hex hash)) s.world).1 },
      )
  unfolding ensure_voter ensure_voting_pool
  pool_refused s e new h = rw (new, h) refl

  failed_over :
      (o : Option Text) (s : GovState World) (x : Option Text × GovState World) (e : Text)
      → o ≡ some e
      → elim o [ some d ↦ (some d, s) | none ↦ x ] ≡ (some e, s)
  failed_over o s x e h = rw h refl

  vote_refused :
      (vote : Vote) (s : GovState World) (e : Text)
      → IsNew s
      → (tables.create (pool_row hash (hex hash)) s.world).0 ≡ some e
      → process_voting_procedure tables tx_hash pool vote s ≡ (
        some (text "failed to create pool hash: " ++ e),
        record s { world = (tables.create (pool_row hash (hex hash)) s.world).1 },
      )
  unfolding process_voting_procedure
  vote_refused vote s e new h =
      let same = pool_refused s e new h in
      failed_over (ensure_voter tables pool s).0 (ensure_voter tables pool s).1 _
        (text "failed to create pool hash: " ++ e) (ap (λ r. r.0) same)
      ∙ ap
          (λ (r : Option Text × GovState World).
            (some (text "failed to create pool hash: " ++ e), r.1))
          same

  -- the state and the warnings after votes that are all lost
  abbrev pub AreLost : ℕ → GovState World → GovState World → Type 0
  AreLost n s r = (r.world ≡ s.world) × (length r.warnings ≡ length s.warnings + n)

  -- For a pool whose row the table has, and which the processor has not made itself, so that the
  -- insert of its row is refused, none of the pool's votes is stored: the database stays as it is, and
  -- each vote is a warning.
  pub process_votes-AreLost :
      (votes : List Vote) (s : GovState World)
      → IsRefused s.world
      → IsNew s
      → AreLost (length votes) s (process_votes tables tx_hash pool votes s)
  unfolding process_votes
  process_votes-AreLost [] s h new = (refl, omega arith)
  process_votes-AreLost (vote ∷ votes) s (e, refused, same) new =
      let w = (tables.create (pool_row hash (hex hash)) s.world).1 in
      let failed = text "failed to create pool hash: " ++ e in
      let warning = text "Voting procedure processing error: " ++ failed in
      let s1 = record s {
        world = w;
        collected = s.collected ++ ((text "failed to process voting procedure: " ++ failed) ∷ []);
        warnings = s.warnings ++ (warning ∷ []);
      } in
      let (kept, count) =
        process_votes-AreLost votes s1 (subst IsRefused (sym same) (e, refused, same)) new in
      subst
        (λ r.
          AreLost (suc (length votes)) s
            (process_votes tables tx_hash pool votes (reported_vote tables r)))
        (sym (vote_refused vote s e new refused))
        (kept ∙ same, omega (arith, count, length-append s.warnings (warning ∷ [])))
