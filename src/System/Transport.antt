-- ===== src/System/Transport.antt =====
-- src/client/src/system/service/autobahnConnectionProxy.js and autobahnSessionProxy.js: the transports
-- that are asked for, and the callbacks. A session is known by a number.
use reactive_trader_cloud.Common.{
  ℕ, ◌≡◌, refl, String, Bool, true, false, Option, none, some, List, [], ◌∷◌, ◌<>◌, if◌then◌else◌,
}

pub record Transport : Type 0 where
  pub type : String
  pub url : String

unfoldable pub transports : Bool → String → List Transport
transports use_secure url =
    record {
      type = "websocket";
      url = if use_secure then "wss://" <> (url <> ":8000/ws") else "ws://" <> (url <> ":8080/ws");
    }
    ∷ record {
      type = "longpoll";
      url =
          if use_secure
          then "https://" <> (url <> ":8000/lp")
          else "http://" <> (url <> ":8080/lp");
    }
    ∷ []

pub record AutobahnConnectionProxy : Type 0 where
  pub session : Option ℕ
  pub has_onopen : Bool
  pub has_onclose : Bool
  pub listens : Bool  -- the callbacks of the transport are set

-- A connection that is being opened retries without limit.
unfoldable pub new_autobahn_connection_proxy : AutobahnConnectionProxy
new_autobahn_connection_proxy = record {
  session = none;
  has_onopen = false;
  has_onclose = false;
  listens = false;
}

pub data Event : Type 0 where
  onopen onclose opens closes : Event
  opened : ℕ → Event
  closed : String → Event

pub data Effect : Type 0 where
  open_connection close_connection : Effect
  call_onopen : ℕ → Effect
  call_onclose : String → Effect

-- What the transport says before `open` is heard by nobody.
unfoldable pub step : AutobahnConnectionProxy → Event → AutobahnConnectionProxy × List Effect
step p onopen = (record p { has_onopen = true }, [])
step p onclose = (record p { has_onclose = true }, [])
step p opens = (record p { listens = true }, open_connection ∷ [])
step p closes = (p, close_connection ∷ [])
step p (opened session) =
    if p.listens
    then (
      record p { session = some session },
      if p.has_onopen then call_onopen session ∷ [] else [],
    )
    else (p, [])
step p (closed reason) =
    if p.listens then (p, if p.has_onclose then call_onclose reason ∷ [] else []) else (p, [])

secure_urls :
    transports true "host"
    ≡ record { type = "websocket"; url = "wss://host:8000/ws" }
      ∷ record { type = "longpoll"; url = "https://host:8000/lp" }
      ∷ []
unfolding transports
secure_urls = refl
