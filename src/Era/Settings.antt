-- ===== src/Era/Settings.antt =====
-- The settings that a block processor has in an epoch: processors/era_config.go and the guard of
-- `ProcessBlock` in processors/block_processor.go.
use nectar.Prelude.{ℕ, ◌≤◌, ◌<◌, ◌≡◌, refl, ap, ◌∙◌, List, [], ◌∷◌, not, ◌==◌, if-cases, arith}
use nectar.Era.Config.{get_era_config, EraState, new_era_state, update_era_config, enter_epoch}

-- the epochs of the processed blocks, in order
unfoldable pub enter_epochs : List ℕ → EraState → EraState
unfolding enter_epoch
enter_epochs [] s = s
enter_epochs (e ∷ es) s = enter_epochs es (enter_epoch e s)

-- the last of the epochs
abbrev last_epoch : ℕ → List ℕ → ℕ
last_epoch d [] = d
last_epoch d (e ∷ es) = last_epoch e es

enter_epoch-current :
    (e : ℕ) (s : EraState)
    → s.current_config ≡ get_era_config s.current_epoch
    → ((enter_epoch e s).current_config ≡ get_era_config (enter_epoch e s).current_epoch)
      × ((enter_epoch e s).current_epoch ≡ e)
unfolding enter_epoch update_era_config
enter_epoch-current e s h =
    if-cases
      (λ (t : EraState).
        (t.current_config ≡ get_era_config t.current_epoch) × (t.current_epoch ≡ e))
      (not (e == s.current_epoch)) _ _ (λ _. (refl, refl)) (λ f. (h, ground (arith, f)))

enter_epochs-current :
    (es : List ℕ) (s : EraState)
    → s.current_config ≡ get_era_config s.current_epoch
    → ((enter_epochs es s).current_config ≡ get_era_config (last_epoch s.current_epoch es))
      × ((enter_epochs es s).current_epoch ≡ last_epoch s.current_epoch es)
unfolding enter_epochs
enter_epochs-current [] s h = (h, refl)
enter_epochs-current (e ∷ es) s h =
    let (entered, there) = enter_epoch-current e s h in
    let (c, n) = enter_epochs-current es (enter_epoch e s) entered in
    (c ∙ ap (λ d. get_era_config (last_epoch d es)) there, n ∙ ap (λ d. last_epoch d es) there)

-- A block processor that has processed blocks of any epochs, in any order, is in the epoch of the
-- last of them, and has that epoch's settings.
enter_epochs-get_era_config :
    (es : List ℕ)
    → ((enter_epochs es new_era_state).current_epoch ≡ last_epoch 0 es)
      × ((enter_epochs es new_era_state).current_config ≡ get_era_config (last_epoch 0 es))
unfolding new_era_state
enter_epochs-get_era_config es = let (c, n) = enter_epochs-current es new_era_state refl in (n, c)

-- In a later epoch the workers are no more and the batches no larger, but never none.
pub get_era_config_mono :
    (e f : ℕ)
    → e ≤ f
    → let c = get_era_config e in
      let d = get_era_config f in
      (d.worker_count ≤ c.worker_count)
      × (d.tx_batch_size ≤ c.tx_batch_size)
      × (d.tx_out_batch_size ≤ c.tx_out_batch_size)
      × (d.tx_in_batch_size ≤ c.tx_in_batch_size)
      × (0 < d.worker_count)
      × (0 < d.tx_batch_size)
      × (0 < d.tx_out_batch_size)
      × (0 < d.tx_in_batch_size)
unfolding get_era_config
get_era_config_mono e f h = ground arith
