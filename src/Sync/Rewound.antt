-- ===== src/Sync/Rewound.antt =====
-- What the rollback handler of main.go leaves in the tables: a table is seen as a list, of the slots
-- for the blocks and the ADA pots, and of the epochs for the other records.
use nectar.Prelude.{
  subst, ℕ, ◌≤◌, ◌≡◌, ◌≢◌, inl, inr, refl, Bool, true, false, not, Option, none, some, List, ◌==◌,
  if-cases, option-cases_eq, All, arith, Option-cases,
}
use nectar.Sync.Rollback.{
  Found, block, not_found, query_error, Table, blocks, epochs, ada_pots, epoch_params, rewards,
  Tables, try_delete, delete_orphans, cleanup_orphaned_data, perform_full_rollback, roll_back,
  chain_sync_roll_backward_handler,
}

found-cases :
    {A : Type 0} (P : A → Type 0) (f : Found) (b : ℕ → ℕ → A) (n q : A)
    → ((s e : ℕ) → f ≡ block s e → P (b s e))
    → (f ≡ not_found → P n)
    → (f ≡ query_error → P q)
    → P (elim f [ block s e ↦ b s e | not_found ↦ n | query_error ↦ q ])
found-cases P (block s e) b n q f g h = f s e refl
found-cases P not_found b n q f g h = g refl
found-cases P query_error b n q f g h = h refl

module _ {Db Hash : Type 0} (tables : Tables Db Hash) (view : Table → Db → List ℕ)
    -- A deletion leaves no record above its bound in its table, and brings none into a table.
    (bounds : (t : Table) (n : ℕ) (db db' : Db)
      → tables.delete_after t n db ≡ some db'
      → All (λ k. k ≤ n) (view t db'))
    (shrinks : (t u : Table) (n m : ℕ) (db db' : Db)
      → tables.delete_after t n db ≡ some db'
      → All (λ k. k ≤ m) (view u db)
      → All (λ k. k ≤ m) (view u db')) where
  try_delete-shrinks :
      (t u : Table) (n m : ℕ) (db : Db)
      → All (λ k. k ≤ m) (view u db)
      → All (λ k. k ≤ m) (view u (try_delete (tables.delete_after t n) db))
  try_delete-shrinks t u n m db h = elim (Option-cases (tables.delete_after t n db)) [
    | inl e ↦ rw (e, try_delete) h
    | inr (db', e) ↦ rw (e, try_delete) (shrinks t u n m db db' e h)
  ]

  try_delete-bounds :
      (t : Table) (n : ℕ) (db : Db)
      → tables.delete_after t n db ≢ none
      → All (λ k. k ≤ n) (view t (try_delete (tables.delete_after t n) db))
  try_delete-bounds t n db h = elim (Option-cases (tables.delete_after t n db)) [
    | inl e ↦ absurd (h e)
    | inr (db', e) ↦ rw (e, try_delete) (bounds t n db db' e)
  ]

  delete_orphans-shrinks :
      (u : Table) (m s e : ℕ) (db : Db)
      → All (λ k. k ≤ m) (view u db)
      → All (λ k. k ≤ m) (view u (delete_orphans tables s e db))
  unfolding delete_orphans
  delete_orphans-shrinks u m s e db h = try_delete-shrinks rewards u e m _ (
      try_delete-shrinks epoch_params u e m _
        (try_delete-shrinks ada_pots u s m _ (try_delete-shrinks epochs u e m db h)))

  -- no record of the table above the bound, in a database that there may be
  Within : Table → ℕ → Option Db → Type 0
  Within u m none = Unit
  Within u m (some db) = All (λ k. k ≤ m) (view u db)

  cleanup-Within :
      (u : Table) (m : ℕ) (hash : Hash) (db : Db)
      → All (λ k. k ≤ m) (view u db)
      → Within u m (cleanup_orphaned_data tables hash db)
  unfolding cleanup_orphaned_data Within
  cleanup-Within u m hash db h =
      found-cases (Within u m) (tables.find_block hash db) _ _ _
        (λ s e _. delete_orphans-shrinks u m s e db h) (λ _. tt) (λ _. tt)

  kept_or_cleaned :
      (m : ℕ) (o : Option Db) (db : Db)
      → All (λ k. k ≤ m) (view blocks db)
      → Within blocks m o
      → Within blocks m (elim o [ none ↦ some db | some cleaned ↦ some cleaned ])
  unfolding Within
  kept_or_cleaned m none db h w = h
  kept_or_cleaned m (some cleaned) db h w = w

  deleted-Within : (n : ℕ) (db : Db) → Within blocks n (tables.delete_after blocks n db)
  unfolding Within
  deleted-Within n db = elim (Option-cases (tables.delete_after blocks n db)) [
    | inl e ↦ rw e tt
    | inr (db', e) ↦ rw e (bounds blocks n db db' e)
  ]

  roll_back-Within :
      (slot : ℕ) (hash : Hash) (db : Db)
      → ((s e : ℕ) → tables.find_block_at slot hash db ≡ block s e → s ≡ slot)
      → slot ≢ 0
      → Within blocks slot (roll_back tables slot hash db)
  unfolding roll_back perform_full_rollback Within
  roll_back-Within slot hash db exact hs =
      found-cases (Within blocks slot) (tables.find_block_at slot hash db) _ _ _
        (λ s e f.
          option-cases_eq (Within blocks slot) (tables.delete_after blocks s db) _ _ (λ _. tt)
            (λ d eq.
              let b = bounds blocks slot db d (ground (arith, eq, exact s e f)) in
              kept_or_cleaned slot (cleanup_orphaned_data tables hash d) d b
                (cleanup-Within blocks slot hash d b)))
        (λ _.
          if-cases (Within blocks slot) (slot == 0) _ _ (λ t. ground (arith, t, hs))
            (λ _. deleted-Within slot db))
        (λ _. tt)

  -- A rollback to a slot but 0 either fails and leaves the database as it was, or succeeds and
  -- leaves no block above the slot, provided a found target has the slot that was asked for.
  pub chain_sync_roll_backward_handler-blocks :
      ((slot : ℕ) (hash : Hash) (db : Db) (s e : ℕ)
        → tables.find_block_at slot hash db ≡ block s e
        → s ≡ slot)
      → (connected : Bool) (slot : ℕ) (hash : Hash) (db : Db) → slot ≢ 0
      → let r = chain_sync_roll_backward_handler tables connected slot hash db in
        (r.1 ≡ false → r.0 ≡ db) × (r.1 ≡ true → All (λ k. k ≤ slot) (view blocks r.0))
  unfolding chain_sync_roll_backward_handler Within
  chain_sync_roll_backward_handler-blocks exact connected slot hash db hs =
      if-cases Good (not connected) _ _ (λ _. ((λ _. refl), (λ f. ground (arith, f))))
        (λ _.
          option-cases_eq Good (roll_back tables slot hash db) _ _
            (λ _. ((λ _. refl), (λ f. ground (arith, f))))
            (λ d e.
              if-cases Good (tables.commits d) _ _
                (λ _. (
                  (λ f. ground (arith, f)),
                  (λ _.
                      subst (Within blocks slot) e
                        (roll_back-Within slot hash db (exact slot hash db) hs)),
                ))
                (λ _. ((λ _. refl), (λ f. ground (arith, f))))))
    where
      Good : Db × Bool → Type 0
      Good r = (r.1 ≡ false → r.0 ≡ db) × (r.1 ≡ true → All (λ k. k ≤ slot) (view blocks r.0))

  -- Where the target block is found and no deletion fails, the clean-up leaves no epoch, epoch
  -- parameters or reward above the block's epoch, and no ADA pots above its slot.
  pub cleanup_orphaned_data-clean :
      ((t : Table) (n : ℕ) (db : Db) → tables.delete_after t n db ≢ none)
      → (hash : Hash) (db : Db) (s e : ℕ) → tables.find_block hash db ≡ block s e
      → (db' : Db) × (cleanup_orphaned_data tables hash db ≡ some db')
        × All (λ k. k ≤ e) (view epochs db')
        × All (λ k. k ≤ s) (view ada_pots db')
        × All (λ k. k ≤ e) (view epoch_params db')
        × All (λ k. k ≤ e) (view rewards db')
  unfolding cleanup_orphaned_data delete_orphans
  cleanup_orphaned_data-clean works hash db s e f =
      let d1 = try_delete (tables.delete_after epochs e) db in
      let d2 = try_delete (tables.delete_after ada_pots s) d1 in
      let d3 = try_delete (tables.delete_after epoch_params e) d2 in
      (
        delete_orphans tables s e db,
        rw (f, cleanup_orphaned_data) refl,
        try_delete-shrinks rewards epochs e e d3 (
            try_delete-shrinks epoch_params epochs e e d2 (
              try_delete-shrinks ada_pots epochs s e d1
                (try_delete-bounds epochs e db (works epochs e db)))),
        try_delete-shrinks rewards ada_pots e s d3 (
            try_delete-shrinks epoch_params ada_pots e s d2
              (try_delete-bounds ada_pots s d1 (works ada_pots s d1))),
        try_delete-shrinks rewards epoch_params e e d3
            (try_delete-bounds epoch_params e d2 (works epoch_params e d2)),
        try_delete-bounds rewards e d3 (works rewards e d3),
      )
