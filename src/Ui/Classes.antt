-- ===== src/Ui/Classes.antt =====
-- The package `classnames`, as the views use it: the names whose condition holds, in order.
use reactive_trader_cloud.Common.{String, Bool, List, [], ◌∷◌, if◌then◌else◌}

abbrev pub class_names : List (String × Bool) → List String
class_names [] = []
class_names ((name, holds) ∷ names) = if holds then name ∷ class_names names else class_names names
