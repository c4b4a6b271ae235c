-- ===== src/System/Logger.antt =====
-- src/client/src/system/logger.js: what the loggers pass to the sink. Arguments are texts.
mod Levels
use reactive_trader_cloud.Common.{
  ℕ, String, Bool, Option, none, some, List, [], ◌∷◌, ◌++◌, if◌then◌else◌, leb,
}

pub data Level : Type 0 where
  verbose debug info warn error : Level

-- `levels`
unfoldable pub level_value : Level → ℕ
level_value verbose = 0
level_value debug = 1
level_value info = 2
level_value warn = 3
level_value error = 4

abbrev pub level_name : Level → String
level_name verbose = "VERBOSE"
level_name debug = "DEBUG"
level_name info = "INFO"
level_name warn = "WARN"
level_name error = "ERROR"

pub record LogEvent : Type 0 where
  pub logger : String
  pub level : String
  pub args : List String
  pub color : String

-- The color that a method gives to `_log`, which is black without one.
abbrev pub level_color : Level → String
level_color info = "blue"
level_color error = "red"
level_color _ = "black"

-- A call of the method that has the name of the level, at the current level.
unfoldable pub log : ℕ → String → Level → List String → Option LogEvent
unfolding level_value
log current name level args =
    if leb current (level_value level)
    then some
        (record { logger = name; level = level_name level; args = args; color = level_color level })
    else none

pub data LogCall : Type 0 where
  set_level : ℕ → LogCall
  logs : String → Level → List String → LogCall

abbrev pub to_sink : Option LogEvent → List LogEvent
to_sink none = []
to_sink (some e) = e ∷ []

-- The calls of all loggers in order, which share the current level.
unfoldable pub run : ℕ → List LogCall → List LogEvent
unfolding log
run current [] = []
run current (set_level level ∷ calls) = run level calls
run current (logs name level args ∷ calls) =
    to_sink (log current name level args) ++ run current calls

abbrev pub initial_level : ℕ
initial_level = 1
