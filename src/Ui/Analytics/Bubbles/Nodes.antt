-- ===== src/Ui/Analytics/Bubbles/Nodes.antt =====
-- The bubbles of the chart are those of the positions that it was given last.
use mathlib.Core.List.{Nodup, Nodup-nil}
use reactive_trader_cloud.Common.{
  ℕ, suc, String, Bool, true, not, ◌&&◌, ◌||◌, Option, List, [], ◌∷◌, map, ◌===◌, any, filter, ◌≡◌,
  refl, sym, ap, ◌∙◌, subst, arith, eq_refl, Bool-cases, inl, inr,
}
use reactive_trader_cloud.Services.Models.{CurrencyPairPosition}
use reactive_trader_cloud.Ui.Analytics.Positions.{Position, Domain, get_positions_data_from_series}
use reactive_trader_cloud.Ui.Analytics.Positions.Totals.{
  symbols, get_positions_data_from_series-Nodup,
}
use reactive_trader_cloud.Ui.Analytics.Bubbles.{
  Colour, colour_of, Node, Chart, Scales, create_scales, is_modified, has_stale, existing, is_empty,
  node_of, nodes_of, update_nodes, update_nodes_from_props_data, should_redraw_chart, receive_props,
  receive_all, mounted,
}
use reactive_trader_cloud.Ui.Analytics.Bubbles.Unchanged.{unchanged_eq}

abbrev has_symbol : String → List Position → Bool
has_symbol k ps = any (λ (q : Position). q.symbol === k) ps

has_symbol_first : (p : Position) (ps : List Position) → has_symbol p.symbol (p ∷ ps) ≡ true
unfolding any
has_symbol_first p ps = ground (arith, eq_refl p.symbol)

has_symbol_later :
    (k : String) (p : Position) (ps : List Position)
    → has_symbol k ps ≡ true
    → has_symbol k (p ∷ ps) ≡ true
unfolding any
has_symbol_later k p ps e = ground (arith, e)

-- The currency and the colour of a bubble.
abbrev pub labels : List Position → List (String × Colour)
labels ps = map (λ p. (p.symbol, colour_of p)) ps

module _ {R X Place : Type 0} where
  abbrev pub node_labels : List (Node R X Place) → List (String × Colour)
  node_labels nodes = map (λ n. (n.id, n.colour)) nodes

  -- The bubbles are those of the previous positions, and no currency has two.
  pub record IsCurrent (c : Chart R X Place) : Type 0 where
    pub agree : node_labels c.nodes ≡ labels (existing c.prev_positions_data)
    pub distinct : Nodup (symbols (existing c.prev_positions_data))

  -- What a change of the data leaves: bubbles for all its positions.
  IsFor : List CurrencyPairPosition → Chart R X Place → Type 0
  IsFor series c =
      (existing c.prev_positions_data ≡ get_positions_data_from_series series) × IsCurrent c

  rescaled :
      (series : List CurrencyPairPosition) (c : Chart R X Place) (scales : Scales) (b : Bool)
      → IsFor series c
      → IsFor series (record c { scales = scales; update_required = b })
  unfolding IsFor
  rescaled series c scales b (e, h) = (e, record { agree = h.agree; distinct = h.distinct })

module _ {R X Place : Type 0} (radius : Option Domain → ℕ → R) (across : ℕ → ℕ → X) where
  labels-nodes_of :
      (scales : Scales) (nodes : List (Node R X Place)) (index : ℕ) (ps : List Position)
      → node_labels (nodes_of radius across scales nodes index ps) ≡ labels ps
  unfolding nodes_of node_of
  labels-nodes_of scales nodes index [] = refl
  labels-nodes_of scales nodes index (p ∷ ps) =
      ap (λ r. (p.symbol, colour_of p) ∷ r) (labels-nodes_of scales nodes (suc index) ps)

  all_kept :
      (scales : Scales) (nodes : List (Node R X Place)) (index : ℕ) (positions ps : List Position)
      → ((k : String) → has_symbol k ps ≡ true → has_symbol k positions ≡ true)
      → filter
          (λ (n : Node R X Place). has_symbol n.id positions)
          (nodes_of radius across scales nodes index ps)
        ≡ nodes_of radius across scales nodes index ps
  unfolding nodes_of node_of filter
  all_kept scales nodes index positions [] sub = refl
  all_kept scales nodes index positions (p ∷ ps) sub = rw (sub p.symbol (has_symbol_first p ps)) (
      ap (λ r. node_of radius across scales nodes index p ∷ r)
        (all_kept scales nodes (suc index) positions ps (λ k e. sub k (has_symbol_later k p ps e))))

  update_nodes-IsCurrent :
      (series : List CurrencyPairPosition) (scales : Scales) (c : Chart R X Place)
      → IsCurrent (update_nodes radius across series scales c)
  unfolding update_nodes
  update_nodes-IsCurrent series scales c =
      let positions = get_positions_data_from_series series in
      record {
        agree =
            ap node_labels (all_kept scales c.nodes 0 positions positions (λ k e. e))
            ∙ labels-nodes_of scales c.nodes 0 positions;
        distinct = get_positions_data_from_series-Nodup series;
      }

  update_nodes-IsFor :
      (series : List CurrencyPairPosition) (scales : Scales) (c : Chart R X Place)
      → IsFor series (update_nodes radius across series scales c)
  unfolding IsFor update_nodes
  update_nodes-IsFor series scales c = (refl, update_nodes-IsCurrent series scales c)

  changed_eq :
      (next : List CurrencyPairPosition) (c : Chart R X Place)
      → (is_modified (get_positions_data_from_series next) (existing c.prev_positions_data)
          || has_stale (get_positions_data_from_series next) (existing c.prev_positions_data))
        ≡ true
      → update_nodes_from_props_data radius across next c
        ≡ record (update_nodes radius across next (create_scales next) c) {
          scales = create_scales next;
        }
  unfolding update_nodes_from_props_data
  changed_eq next c e = rw e refl

  update_nodes_from_props_data-IsFor :
      (next : List CurrencyPairPosition) (c : Chart R X Place)
      → IsCurrent c
      → IsFor next (update_nodes_from_props_data radius across next c)
  unfolding IsFor update_nodes_from_props_data
  update_nodes_from_props_data-IsFor next c h =
      let positions = get_positions_data_from_series next in
      let old = existing c.prev_positions_data in
      elim (Bool-cases (is_modified positions old || has_stale positions old)) [
        | inl e ↦
            let fresh = update_nodes radius across next (create_scales next) c in
            subst (IsFor next) (sym (changed_eq next c e)) (
              rescaled next fresh (create_scales next) fresh.update_required
                (update_nodes-IsFor next (create_scales next) c))
        | inr e ↦
            let same : old ≡ positions =
              unchanged_eq positions old h.distinct (ground arith) (ground arith) in
            elim (Bool-cases (is_empty c.nodes && not (is_empty next))) [
              | inl f ↦ rw (e, f) (update_nodes-IsFor next c.scales c)
              | inr f ↦ rw (e, f) (same, h)
            ]
      ]

  receive_props-IsFor :
      (next : List CurrencyPairPosition) (c : Chart R X Place)
      → IsCurrent c
      → IsFor next (receive_props radius across next c).0
  unfolding receive_props
  receive_props-IsFor next c h =
      let r = update_nodes_from_props_data-IsFor next c h in
      let c' = update_nodes_from_props_data radius across next c in
      elim (Bool-cases (should_redraw_chart radius across next c)) [
        | inl e ↦ rw e (rescaled next c' (create_scales next) true r)
        | inr e ↦ rw e r
      ]

  receive_all-IsCurrent :
      (changes : List (List CurrencyPairPosition)) (c : Chart R X Place)
      → IsCurrent c
      → IsCurrent (receive_all radius across changes c)
  unfolding receive_all IsFor
  receive_all-IsCurrent [] c h = h
  receive_all-IsCurrent (next ∷ changes) c h =
      receive_all-IsCurrent changes (receive_props radius across next c).0
        (receive_props-IsFor next c h).1

-- However the data of the chart has changed, after each change that it receives it has one bubble for
-- each currency whose total is not 0, in the order of the positions and in the colour of the total's
-- sign.
pub receive_all-labels :
    {R X : Type 0} (Place : Type 0) (radius : Option Domain → ℕ → R) (across : ℕ → ℕ → X)
    (first : List CurrencyPairPosition) (changes : List (List CurrencyPairPosition))
    (next : List CurrencyPairPosition)
    → node_labels
        (receive_props radius across next
          (receive_all radius across changes (mounted {Place = Place} first))).0.nodes
      ≡ labels (get_positions_data_from_series next)
unfolding IsFor mounted
receive_all-labels Place radius across first changes next =
    let start : IsCurrent (mounted {Place = Place} first) = record {
      agree = refl;
      distinct = Nodup-nil;
    } in
    let c = receive_all radius across changes (mounted first) in
    let (e, h) =
      receive_props-IsFor radius across next c
        (receive_all-IsCurrent radius across changes (mounted first) start) in
    h.agree ∙ ap labels e
