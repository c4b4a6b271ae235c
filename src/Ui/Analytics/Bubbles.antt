-- ===== src/Ui/Analytics/Bubbles.antt =====
-- src/client/src/ui/analytics/views/positions-chart/positionsBubbleChart.js: which bubbles the chart
-- has, by the data that it is given. The scales and the layout of d3 are parameters.
mod Unchanged
mod Nodes
mod Tests
use reactive_trader_cloud.Common.{
  ℕ, suc, ◌+◌, String, Bool, true, false, not, ◌&&◌, ◌||◌, Option, none, some, List, [], ◌∷◌, map,
  ◌==◌, ◌===◌, if◌then◌else◌, find, any, filter, length, ltb,
}
use reactive_trader_cloud.Common.Int.{ℤ, pos, ltb_ℤ, abs, pos_part, neg_part}
use reactive_trader_cloud.Services.Models.{CurrencyPairPosition}
use reactive_trader_cloud.Ui.Analytics.Positions.{
  Position, Domain, get_positions_data_from_series, radius_domain,
}

-- `colours[0]` and `colours[1]`
pub data Colour : Type 0 where
  green red : Colour

-- What `createScales` depends on: the domain of the radius, and the number of the pairs' positions.
pub record Scales : Type 0 where
  pub domain : Option Domain
  pub count : ℕ

unfoldable pub create_scales : List CurrencyPairPosition → Scales
unfolding get_positions_data_from_series radius_domain
create_scales series = record {
  domain = radius_domain (get_positions_data_from_series series);
  count = length series;
}

abbrev pub same_amount : ℤ → ℤ → Bool
same_amount a b = pos_part a + neg_part b == pos_part b + neg_part a

-- `_.isEqual`
abbrev pub same_position : Position → Position → Bool
same_position p q = p.symbol === q.symbol && same_amount p.base_traded_amount q.base_traded_amount

-- Whether `modifiedData` has an element: a position that differs from the one at its place.
unfoldable pub is_modified : List Position → List Position → Bool
is_modified [] old = false
is_modified (p ∷ ps) [] = true
is_modified (p ∷ ps) (q ∷ old) = not (same_position p q) || is_modified ps old

-- Whether `stalePositions` has an element.
unfoldable pub has_stale : List Position → List Position → Bool
unfolding any
has_stale positions [] = false
has_stale positions (q ∷ old) =
    not (any (λ (p : Position). p.symbol === q.symbol) positions) || has_stale positions old

-- The first time the previous positions are an object with no keys and no length.
abbrev pub existing : Option (List Position) → List Position
existing none = []
existing (some old) = old

abbrev pub is_empty {ℓ} : {A : Type ℓ} → List A → Bool
is_empty [] = true
is_empty (x ∷ xs) = false

pub record Node (R X Place : Type 0) : Type 0 where
  pub id : String
  pub r : R
  pub cx : X
  pub colour : Colour
  pub place : Option Place

pub record Chart (R X Place : Type 0) : Type 0 where
  pub nodes : List (Node R X Place)
  pub prev_positions_data : Option (List Position)
  pub scales : Scales
  pub update_required : Bool

abbrev pub colour_of : Position → Colour
colour_of p = if ltb_ℤ (pos 0) p.base_traded_amount then green else red

-- The radius and the middle of a bubble by the scales of d3, and the place that the layout has given
-- to a node.
module _ {R X Place : Type 0} (radius : Option Domain → ℕ → R) (across : ℕ → ℕ → X) where
  -- The node of a position: the one that has its id already, or a new one.
  abbrev pub node_of : Scales → List (Node R X Place) → ℕ → Position → Node R X Place
  unfolding find abs
  node_of scales nodes index p = record {
    id = p.symbol;
    r = radius scales.domain (abs p.base_traded_amount);
    cx = across scales.count index;
    colour = colour_of p;
    place = elim (find (λ (n : Node R X Place). n.id === p.symbol) nodes) [
      | none ↦ none
      | some n ↦ n.place
    ];
  }

  unfoldable pub nodes_of :
      Scales → List (Node R X Place) → ℕ → List Position → List (Node R X Place)
  unfolding node_of
  nodes_of scales nodes index [] = []
  nodes_of scales nodes index (p ∷ ps) =
      node_of scales nodes index p ∷ nodes_of scales nodes (suc index) ps

  unfoldable pub update_nodes :
      List CurrencyPairPosition → Scales → Chart R X Place → Chart R X Place
  unfolding get_positions_data_from_series nodes_of filter any
  update_nodes series scales c =
      let positions = get_positions_data_from_series series in
      record c {
        nodes =
            filter (λ (n : Node R X Place). any (λ (p : Position). p.symbol === n.id) positions)
              (nodes_of scales c.nodes 0 positions);
        prev_positions_data = some positions;
        update_required = true;
      }

  -- `componentWillReceiveProps`: the state that it reads is the one before the call, and the last of
  -- the states that it sets holds.
  unfoldable pub update_nodes_from_props_data :
      List CurrencyPairPosition → Chart R X Place → Chart R X Place
  unfolding update_nodes create_scales is_modified has_stale get_positions_data_from_series
  update_nodes_from_props_data next c =
      let positions = get_positions_data_from_series next in
      let old = existing c.prev_positions_data in
      if is_modified positions old || has_stale positions old
      then record (update_nodes next (create_scales next) c) { scales = create_scales next }
      else if is_empty c.nodes && not (is_empty next)
      then update_nodes next c.scales c
      else c

  unfoldable pub should_redraw_chart : List CurrencyPairPosition → Chart R X Place → Bool
  unfolding get_positions_data_from_series
  should_redraw_chart next c = elim c.prev_positions_data [
    | none ↦ true
    | some old ↦ not (length (get_positions_data_from_series next) == length old)
  ]

  -- The flag says whether the chart is drawn anew.
  unfoldable pub receive_props :
      List CurrencyPairPosition → Chart R X Place → Chart R X Place × Bool
  unfolding update_nodes_from_props_data should_redraw_chart create_scales
  receive_props next c =
      let c' = update_nodes_from_props_data next c in
      if should_redraw_chart next c
      then (record c' { scales = create_scales next; update_required = true }, true)
      else (c', false)

  -- The data that the chart receives, one after the other.
  unfoldable pub receive_all : List (List CurrencyPairPosition) → Chart R X Place → Chart R X Place
  unfolding receive_props
  receive_all [] c = c
  receive_all (next ∷ changes) c = receive_all changes (receive_props next c).0

-- The chart after `componentDidMount`.
unfoldable pub mounted : {R X Place : Type 0} → List CurrencyPairPosition → Chart R X Place
unfolding create_scales
mounted series = record {
  nodes = [];
  prev_positions_data = none;
  scales = create_scales series;
  update_required = true;
}
