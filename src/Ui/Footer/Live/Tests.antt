-- ===== src/Ui/Footer/Live/Tests.antt =====
-- The application that hears of one service after another.
use reactive_trader_cloud.Common.{
  ◌≡◌, ◌≢◌, ◌↔◌, refl, String, true, false, some, List, [], ◌∷◌, arith, eq_iff, All, ◌===◌,
}
use reactive_trader_cloud.System.Connection.{connected, web_socket}
use reactive_trader_cloud.System.Service.Instances.{connection, heartbeat}
use reactive_trader_cloud.System.Service.Instances.Account.{IsNamed}
use reactive_trader_cloud.Services.CompositeStatus.{
  WellKnownService, pricing, reference, blotter, execution, analytics, service_key,
}
use reactive_trader_cloud.Ui.Footer.{healthy, warning, is_web_socket}
use reactive_trader_cloud.Ui.Footer.Live.{
  Happening, at_service, at_connection, click, begin, live, heard_by,
}
use reactive_trader_cloud.Ui.Footer.Live.Healthy.{healthy-live, IsServed}

abbrev beat : WellKnownService → String → Happening
beat w type =
    at_service w (heartbeat (record { type = type; instance_id = "i.1"; timestamp = 1; load = 2 }))

abbrev opened : List Happening → List Happening
opened hs =
    at_service pricing (connection true)
    ∷ at_service reference (connection true)
    ∷ at_service blotter (connection true)
    ∷ at_service execution (connection true)
    ∷ at_service analytics (connection true)
    ∷ at_connection connected "ws://host" (some web_socket)
    ∷ hs

abbrev served : List Happening
served = opened (
    beat pricing "pricing"
    ∷ beat reference "reference"
    ∷ beat blotter "blotter"
    ∷ beat execution "execution"
    ∷ click
    ∷ beat analytics "analytics"
    ∷ [])

-- Nothing has reached the footer, whose own lookup is empty.
too_early : (live (begin false) (opened [])).footer.application_status ≡ healthy
unfolding live begin
too_early = refl

all_served : (live (begin false) served).footer.application_status ≡ healthy
unfolding live begin
all_served = refl

one_missed :
    (live (begin false) (opened (beat pricing "pricing" ∷ []))).footer.application_status ≡ warning
unfolding live begin
one_missed = refl

nonempty : (a : String) → (a === "") ≡ false → a ≢ ""
nonempty a e = ground (arith, eq_iff a "")

served-IsNamed : (w : WellKnownService) → All IsNamed (heard_by w served)
unfolding service_key
served-IsNamed pricing = (tt, (nonempty "i.1" refl, tt))
served-IsNamed reference = (tt, (nonempty "i.1" refl, tt))
served-IsNamed blotter = (tt, (nonempty "i.1" refl, tt))
served-IsNamed execution = (tt, (nonempty "i.1" refl, tt))
served-IsNamed analytics = (tt, (nonempty "i.1" refl, tt))

shows_some : (live (begin false) served).footer.service_lookup ≢ []
unfolding live begin
shows_some = λ e. cc

healthy-live_example : ((live (begin false) served).footer.application_status ≡ healthy) ↔ (
    ((live (begin false) served).footer.is_connected_to_broker ≡ true)
    × (is_web_socket (live (begin false) served).footer.connection_type ≡ true)
    × ((w : WellKnownService) → IsServed w served))
healthy-live_example = healthy-live false served served-IsNamed shows_some
