-- ===== src/Common/Text.antt =====
-- Joining texts.
use Prim.Native.String.{String}
use Prim.Native.String.{◌++◌ as ◌+++◌}

infixr 60 ◌<>◌
abbrev pub ◌<>◌ : String → String → String
s <> t = s +++ t
