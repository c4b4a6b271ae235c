-- ===== src/System/Service/Heartbeats.antt =====
-- `debounceWithSelector` of src/client/src/system/service/serviceObservableExtensions.js, by which an
-- instance that sends no heartbeat for a while counts as disconnected, and the timing of a run.
pub mod Timeouts
use reactive_trader_cloud.Common.{
  ℕ, suc, ◌+◌, Bool, true, false, Option, none, some, List, [], ◌∷◌, ◌++◌, if◌then◌else◌, leb,
}

-- What the observer is given: an item of the source, or the one that the selector makes.
pub data Output (A : Type 0) : Type 0 where
  item : A → Output A
  debounced : A → Output A

-- `HEARTBEAT_TIMEOUT` of serviceClient.js, in milliseconds
abbrev pub heartbeat_timeout : ℕ
heartbeat_timeout = 3000

module _ {A : Type 0} (due_time : ℕ) (item_selector : A) where
  -- The state is the time at which the scheduled action runs, if one is pending: the serial
  -- disposable drops an action when another is scheduled. `debounce`, called at the time `now`:
  unfoldable pub debounce : ℕ → Option ℕ
  debounce now = some (now + due_time)

  -- An item of the source at the time `now`.
  unfoldable pub on_item : ℕ → A → Option ℕ × List (Output A)
  unfolding debounce
  on_item now a = (debounce now, item a ∷ [])

  -- The scheduled action.
  unfoldable pub on_timeout : Option ℕ × List (Output A)
  on_timeout = (none, debounced item_selector ∷ [])

  -- The scheduler runs an action that is due before anything else of that time.
  unfoldable pub advance : Option ℕ → ℕ → Option ℕ × List (Output A)
  unfolding on_timeout
  advance none now = (none, [])
  advance (some due) now = if leb due now then on_timeout else (some due, [])

  -- The source's items with their times, in order, up to the time `end`.
  unfoldable pub run : Option ℕ → List (ℕ × A) → ℕ → List (Output A)
  unfolding on_item advance
  run pending [] end = (advance pending end).1
  run pending ((now, a) ∷ rest) end =
      (advance pending now).1 ++ ((on_item now a).1 ++ run (on_item now a).0 rest end)

  -- Subscribing at the time `start`.
  unfoldable pub debounce_with_selector : ℕ → List (ℕ × A) → ℕ → List (Output A)
  unfolding debounce run
  debounce_with_selector start source end = run (debounce start) source end
