-- ===== src/Ui/Footer/Live/Healthy.antt =====
-- When the footer of the running application says Healthy.
use reactive_trader_cloud.Common.{
  ◌≡◌, ◌≢◌, ◌↔◌, ◌⊎◌, refl, sym, ap, ◌∙◌, subst, String, Bool, true, false, List, [], ◌∷◌, every,
  All, ◌===◌, if◌then◌else◌, arith, eq_iff, Bool-cases, inl, inr,
}
use reactive_trader_cloud.Common.Dict.{Dict, values}
use reactive_trader_cloud.Common.Dict.Values.{every-lookup, lookup-every}
use reactive_trader_cloud.System.Service.Status.{ServiceStatus}
use reactive_trader_cloud.System.Service.Dictionary.{create_service_status}
use reactive_trader_cloud.System.Service.Instances
use reactive_trader_cloud.System.Service.Instances.{Instances}
use reactive_trader_cloud.System.Service.Instances.Account.{grounded, is_alive, account, IsNamed}
use reactive_trader_cloud.System.Service.Instances.Liveness.{connected-run}
use reactive_trader_cloud.Services.CompositeStatus.{
  WellKnownService, pricing, reference, blotter, execution, analytics, service_key, instances_after,
  status_of, start, publishes, receive,
}
use reactive_trader_cloud.Services.CompositeStatus.Lookups.{
  IsCurrent, start-IsCurrent, receive-IsCurrent,
}
use reactive_trader_cloud.Ui.Footer
use reactive_trader_cloud.Ui.Footer.{
  FooterModel, healthy, init, new, update_application_status, is_web_socket,
}
use reactive_trader_cloud.Ui.Footer.Status.{healthy_iff}
use reactive_trader_cloud.Ui.Footer.Live.{
  Application, Happening, at_service, at_connection, click, begin, happen, live, heard_by,
}

-- The footer shows the empty lookup that it was made with or the one of the composite service, and its
-- status is the one of what it shows.
record IsShown (a : Application) : Type 0 where
  current : IsCurrent a.composite.instances a.composite.services
  shown : (a.footer.service_lookup ≡ []) ⊎ (a.footer.service_lookup ≡ a.composite.services)
  settled : a.footer.application_status ≡ (update_application_status a.footer).application_status

begin-IsShown : (b : Bool) → IsShown (begin b)
unfolding begin start Footer.step Footer.on_event update_application_status new
begin-IsShown b = record {
  current = start-IsCurrent (λ w. Instances.created);
  shown = inl refl;
  settled = refl;
}

step_settled :
    (m : FooterModel) (e : Footer.Event)
    → (Footer.step m e).application_status
      ≡ (update_application_status (Footer.step m e)).application_status
unfolding Footer.step update_application_status
step_settled m e = refl

happen-IsShown : (a : Application) (h : Happening) → IsShown a → IsShown (happen a h)
unfolding happen Footer.step Footer.on_event update_application_status
happen-IsShown a (at_service w e) s = elim (Bool-cases (publishes w e a.composite)) [
  | inl q ↦ record {
    current = receive-IsCurrent w e a.composite s.current;
    shown = inr (rw q refl);
    settled = rw q refl;
  }
  | inr q ↦ record {
    current = receive-IsCurrent w e a.composite s.current;
    shown = rw q s.shown;
    settled = rw q s.settled;
  }
]
happen-IsShown a (at_connection status url type) s = record {
  current = s.current;
  shown = s.shown;
  settled = refl;
}
happen-IsShown a click s = record { current = s.current; shown = s.shown; settled = refl }

live-IsShown : (hs : List Happening) (a : Application) → IsShown a → IsShown (live a hs)
unfolding live
live-IsShown [] a s = s
live-IsShown (h ∷ hs) a s = live-IsShown hs (happen a h) (happen-IsShown a h s)

run_if :
    (b : Bool) (k : String) (s : Instances) (e : Instances.Event) (es : List Instances.Event)
    → Instances.run k (if b then Instances.step k s e else s) es
      ≡ Instances.run k s (if b then e ∷ es else es)
unfolding Instances.run
run_if true k s e es = refl
run_if false k s e es = refl

happen-instances :
    (w v : WellKnownService) (e : Instances.Event) (a : Application)
    → (happen a (at_service v e)).composite.instances w ≡ (
        if service_key v === service_key w
        then Instances.step (service_key w) (a.composite.instances w) e
        else a.composite.instances w)
unfolding happen receive instances_after
happen-instances w v e a = refl

-- A client goes through the events that it hears.
instances-live :
    (w : WellKnownService) (hs : List Happening) (a : Application)
    → (live a hs).composite.instances w
      ≡ Instances.run (service_key w) (a.composite.instances w) (heard_by w hs)
unfolding live Instances.run happen
instances-live w [] a = refl
instances-live w (at_service v e ∷ hs) a =
    instances-live w hs (happen a (at_service v e))
    ∙ ap (λ s. Instances.run (service_key w) s (heard_by w hs)) (happen-instances w v e a)
    ∙ run_if (service_key v === service_key w) (service_key w) (a.composite.instances w) e
        (heard_by w hs)
instances-live w (at_connection status url type ∷ hs) a =
    instances-live w hs (happen a (at_connection status url type))
instances-live w (click ∷ hs) a = instances-live w hs (happen a click)

service_key-named : (w : WellKnownService) → service_key w ≢ ""
unfolding service_key
service_key-named pricing = λ e. ground (arith, eq_iff "pricing" "")
service_key-named reference = λ e. ground (arith, eq_iff "reference" "")
service_key-named blotter = λ e. ground (arith, eq_iff "blotter" "")
service_key-named execution = λ e. ground (arith, eq_iff "execution" "")
service_key-named analytics = λ e. ground (arith, eq_iff "analytics" "")

-- The lookup has only connected services exactly if each of the five is connected.
every-IsCurrent :
    (instances : WellKnownService → Instances) (services : Dict ServiceStatus)
    → IsCurrent instances services
    → (every (λ s. s.is_connected) (values services) ≡ true)
      ↔ ((w : WellKnownService) → (status_of instances w).is_connected ≡ true)
every-IsCurrent instances services c = (
  (λ h w.
      every-lookup (λ s. s.is_connected) services h (service_key w) (status_of instances w)
        (c.held w)),
  λ h.
      lookup-every (λ s. s.is_connected) services c.distinct
        (λ k s e.
          let (w, q) = c.known k s e in
          let same : status_of instances w ≡ s = cc (c.held w, q, e) in
          subst (λ x. x.is_connected ≡ true) same (h w)),
)

-- Some instance of a service is alive by the account of what its client heard.
abbrev pub IsServed : WellKnownService → List Happening → Type 0
IsServed w hs =
    (k : String) × (is_alive ((account (service_key w) grounded (heard_by w hs)).instance k) ≡ true)

status_of-live :
    (b : Bool) (hs : List Happening) (w : WellKnownService)
    → All IsNamed (heard_by w hs)
    → ((status_of (live (begin b) hs).composite.instances w).is_connected ≡ true) ↔ IsServed w hs
unfolding status_of begin start
status_of-live b hs w n =
    subst
      (λ s. ((create_service_status (service_key w) s.value).is_connected ≡ true) ↔ IsServed w hs)
      (sym (instances-live w hs (begin b)))
      (connected-run (service_key w) (heard_by w hs) (service_key-named w) n)

-- The application is started, and anything happens at the clients of the five services, the connection
-- and the footer, every heartbeat and every missed one with the id of its instance. Once the footer
-- shows a lookup that is not empty, it says Healthy exactly if the broker is connected, by a web
-- socket, and of each of the five services some instance is alive by the plain account of what its
-- client heard.
pub healthy-live :
    (b : Bool) (hs : List Happening)
    → ((w : WellKnownService) → All IsNamed (heard_by w hs))
    → (live (begin b) hs).footer.service_lookup ≢ []
    → ((live (begin b) hs).footer.application_status ≡ healthy) ↔ (
        ((live (begin b) hs).footer.is_connected_to_broker ≡ true)
        × (is_web_socket (live (begin b) hs).footer.connection_type ≡ true)
        × ((w : WellKnownService) → IsServed w hs))
healthy-live b hs n heard =
    let a : Application = live (begin b) hs in
    let s = live-IsShown hs (begin b) (begin-IsShown b) in
    let shown : a.footer.service_lookup ≡ a.composite.services = elim s.shown [
      | inl e ↦ absurd (heard e)
      | inr e ↦ e
    ] in
    let iff = healthy_iff a.footer in
    let all = every-IsCurrent a.composite.instances a.composite.services s.current in
    (
      (λ h.
          let (broker, up, socket) = iff.0 (sym s.settled ∙ h) in
          (
            broker,
            socket,
            λ w.
                (status_of-live b hs w (n w)).0
                  (all.0 (subst (λ d. every (λ x. x.is_connected) (values d) ≡ true) shown up) w),
          )),
      λ (broker, socket, alive).
          s.settled
          ∙ iff.1 (
            broker,
            subst (λ d. every (λ x. x.is_connected) (values d) ≡ true) (sym shown)
                (all.1 (λ w. (status_of-live b hs w (n w)).1 (alive w))),
            socket,
          ),
    )
