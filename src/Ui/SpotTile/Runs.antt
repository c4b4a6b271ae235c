-- ===== src/Ui/SpotTile/Runs.antt =====
-- Runs of the spot tile's model, taken apart at the first event.
use reactive_trader_cloud.Common.{◌≡◌, List, [], ◌∷◌, ◌++◌, inl, inr, arith, subst}
use reactive_trader_cloud.Common.Result.{returns, Result-cases}
use reactive_trader_cloud.Ui.SpotTile.{Formats, SpotTileModel, Event, Effect, step, run}

module _ (formats : Formats) where
  pub run-cons :
      (event : Event) (events : List Event) (m : SpotTileModel) (m' : SpotTileModel)
      (effects : List Effect)
      → run formats m (event ∷ events) ≡ returns (m', effects)
      → (n : SpotTileModel) × (now : List Effect) × (later : List Effect) × (step formats event m
          ≡ returns (n, now))
        × (run formats n events ≡ returns (m', later))
        × (effects ≡ now ++ later)
  unfolding run
  run-cons event events m m' effects h = elim (Result-cases (step formats event m)) [
    | inl ((n, now), e) ↦ elim (Result-cases (run formats n events)) [
      | inl ((k, later), f) ↦ (n, now, later, e, ground arith, ground arith)
      | inr (t, f) ↦ absurd (ground arith)
    ]
    | inr (t, e) ↦ absurd (ground arith)
  ]

  -- What every handler that returns keeps, a run that returns keeps.
  pub run_inv :
      (P : SpotTileModel → Type 0)
      → ((event : Event) (m : SpotTileModel) (n : SpotTileModel) (now : List Effect)
          → step formats event m ≡ returns (n, now)
          → P m
          → P n)
      → (events : List Event) (m : SpotTileModel) (m' : SpotTileModel) (effects : List Effect)
      → run formats m events ≡ returns (m', effects)
      → P m
      → P m'
  unfolding run
  run_inv P keep [] m m' effects h p = subst P (ground arith) p
  run_inv P keep (event ∷ events) m m' effects h p =
      let (n, now, later, e, f, g) = run-cons event events m m' effects h in
      run_inv P keep events n m' later f (keep event m n now e p)
