-- ===== src/Ui/Analytics/Model/Published.antt =====
-- The positions that the back end sends reach the other applications as they were sent.
use reactive_trader_cloud.Common.{
  String, true, List, [], ◌∷◌, ◌++◌, map, All, ◌≡◌, refl, ap, ◌∙◌, arith, inl, inr, if◌then◌else◌,
}
use reactive_trader_cloud.Common.Int.{ℤ}
use reactive_trader_cloud.Common.Result.{Result, returns, traverse, Result-cases}
use reactive_trader_cloud.Services.Models.{CurrencyPair, CurrencyPairPosition, PositionUpdates}
use reactive_trader_cloud.Services.Mappers.{
  PositionDto, PositionsDto, map_position_from_dto, map_positions_from_dto, map_to_position_dto,
}
use reactive_trader_cloud.System.OpenFin.{OpenFin, publish_positions, publish_current_positions}
use reactive_trader_cloud.Ui.Analytics.Model.{
  AnalyticsModel, open_fin, message, on_update, on_message, step, run,
}

module _ (get_currency_pair : String → Result CurrencyPair) where
  -- A position that is mapped and mapped back.
  position-round :
      (dto : PositionDto) (p : CurrencyPairPosition)
      → map_position_from_dto get_currency_pair dto ≡ returns p
      → map_to_position_dto p ≡ dto
  unfolding map_position_from_dto map_to_position_dto
  position-round dto p e = ground arith

  positions-round :
      (dtos : List PositionDto) (ps : List CurrencyPairPosition)
      → traverse (map_position_from_dto get_currency_pair) dtos ≡ returns ps
      → map map_to_position_dto ps ≡ dtos
  unfolding traverse
  positions-round [] ps e = ground arith
  positions-round (dto ∷ dtos) ps e =
      elim (Result-cases (map_position_from_dto get_currency_pair dto)) [
        | inr (x, f) ↦ ground arith
        | inl (p, f) ↦
            elim (Result-cases (traverse (map_position_from_dto get_currency_pair) dtos)) [
              | inr (x, g) ↦ ground arith
              | inl (rest, g) ↦
                  let h = position-round dto p f in
                  let k = positions-round dtos rest g in ground arith
            ]
      ]

  updates-round :
      (dto : PositionsDto) (u : PositionUpdates)
      → map_positions_from_dto get_currency_pair dto ≡ returns u
      → map map_to_position_dto u.current_positions ≡ dto.current_positions
  unfolding map_positions_from_dto
  updates-round dto u e =
      elim (Result-cases
        (traverse (map_position_from_dto get_currency_pair) dto.current_positions)) [
          | inr (x, f) ↦ ground arith
          | inl (ps, f) ↦ let h = positions-round dto.current_positions ps f in ground arith
        ]

  -- A message that can be mapped.
  abbrev pub IsMappable : PositionsDto → Type 0
  IsMappable dto =
      (u : PositionUpdates) × (map_positions_from_dto get_currency_pair dto ≡ returns u)

  module _ (to_fixed : ℤ → String) (container : OpenFin)
      (running : container.is_running_in_open_fin ≡ true) where
    on_message-published :
        (dto : PositionsDto) (m : AnalyticsModel)
        → IsMappable dto
        → (m' : AnalyticsModel) × (on_message get_currency_pair to_fixed container dto m
            ≡ (m', open_fin (publish_positions dto.current_positions ∷ []) ∷ []))
          × (m'.observes_positions ≡ m.observes_positions)
    unfolding on_message on_update publish_current_positions
    on_message-published dto m (u, e) =
        let h = updates-round dto u e in
        ((on_update get_currency_pair to_fixed container u m).0, ground arith, refl)

    -- In the container, on a model that listens to the positions: every message that can be mapped is
    -- published to the other applications with the positions as the back end sent them, in order.
    pub published-run :
        (m : AnalyticsModel) (dtos : List PositionsDto)
        → m.observes_positions ≡ true
        → All IsMappable dtos
        → (run get_currency_pair to_fixed container m (map message dtos)).1
          ≡ map (λ dto. open_fin (publish_positions dto.current_positions ∷ [])) dtos
    unfolding run step
    published-run m [] h a = refl
    published-run m (dto ∷ dtos) h a =
        let (m', e, k) = on_message-published dto m a.0 in
        let s : step get_currency_pair to_fixed container m (message dto)
            ≡ (m', open_fin (publish_positions dto.current_positions ∷ []) ∷ []) =
          ap (λ b. if b then on_message get_currency_pair to_fixed container dto m else (m, [])) h
          ∙ e in
        ap (λ r. r.1 ++ (run get_currency_pair to_fixed container r.0 (map message dtos)).1) s
        ∙ ap (λ r. open_fin (publish_positions dto.current_positions ∷ []) ∷ r)
            (published-run m' dtos (k ∙ h) a.1)
