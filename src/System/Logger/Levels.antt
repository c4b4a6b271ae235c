-- ===== src/System/Logger/Levels.antt =====
-- A lower level passes on whatever a higher one does.
use reactive_trader_cloud.Common.{ℕ, ◌≡◌, ◌≤◌, refl, some, List, [], ◌∷◌, String, arith, length}
use reactive_trader_cloud.System.Logger.{
  Level, verbose, error, level_value, LogEvent, logs, log, run, initial_level,
}

errors_pass :
    (current : ℕ) (name : String) (args : List String)
    → current ≤ 4
    → length (run current (logs name error args ∷ [])) ≡ 1
unfolding run level_value
errors_pass current name args h = ground arith

-- At the initial level all but verbose messages pass.
initially :
    (name : String) (args : List String) → run initial_level (logs name verbose args ∷ []) ≡ []
unfolding run level_value
initially name args = refl

-- Until the level is changed, a logger at a level passes on every message that one at a higher level
-- passes on.
log-lower :
    (low high : ℕ) (name : String) (level : Level) (args : List String) (e : LogEvent)
    → low ≤ high
    → log high name level args ≡ some e
    → log low name level args ≡ some e
unfolding log
log-lower low high name level args e h k = ground arith
