-- ===== src/System/Connection/Operations.antt =====
-- `subscribeToTopic` and `requestResponse` of src/client/src/system/service/connection.js: what a
-- subscriber's observable calls, and what the callbacks of the session's promises do.
pub mod Outcomes
use reactive_trader_cloud.Common.{
  ℕ, suc, ◌+◌, ◌≤◌, String, ◌≡◌, refl, ◌⊎◌, inl, inr, Bool, true, false, Option, none, some, List,
  [], ◌∷◌, ◌++◌, arith, if◌then◌else◌,
}
use reactive_trader_cloud.System.Connection.{Connection}

-- A call on an observer.
pub data Notification {ℓ} (A : Type ℓ) : Type ℓ where
  next : A → Notification A
  error : String → Notification A
  completed : Notification A

-- Subscribing

-- What subscribing to a topic does at once.
pub data Subscribing : Type 0 where
  session_subscribe : String → Subscribing
  not_connected : Subscribing

unfoldable pub subscribe_to_topic : Connection → String → Subscribing
subscribe_to_topic c topic = if c.is_connected then session_subscribe topic else not_connected

-- `S` is the type of the subscriptions that the session acknowledges with, `A` that of the payloads.
pub data TopicEvent (S A : Type 0) : Type 0 where
  acked : S → TopicEvent S A
  failed : String → TopicEvent S A
  received : List A → TopicEvent S A
  disposes : TopicEvent S A

pub data TopicEffect (S A : Type 0) : Type 0 where
  notify : Notification (Option A) → TopicEffect S A
  unsubscribe : S → TopicEffect S A

-- `response[0]`, which is `undefined` for an empty array
abbrev pub first : {A : Type 0} → List A → Option A
first [] = none
first (x ∷ xs) = some x

abbrev pub release : {S A : Type 0} → Option S → List (TopicEffect S A)
release none = []
release (some s) = unsubscribe s ∷ []

module _ {S A : Type 0} where
  -- The state is the local variable `subscription`.
  unfoldable pub topic_step : Option S → TopicEvent S A → Option S × List (TopicEffect S A)
  topic_step sub (acked s) = (some s, [])
  topic_step sub (failed e) = (sub, notify (error e) ∷ [])
  topic_step sub (received r) = (sub, notify (next (first r)) ∷ [])
  topic_step sub disposes = (sub, release sub)

  unfoldable pub topic_run : Option S → List (TopicEvent S A) → List (TopicEffect S A)
  unfolding topic_step
  topic_run sub [] = []
  topic_run sub (e ∷ es) = let (sub', now) = topic_step sub e in now ++ topic_run sub' es

-- Requesting

-- The only element of the array that a remote procedure is called with.
pub record RequestDto (A : Type 0) : Type 0 where
  pub reply_to : String
  pub username : String
  pub payload : A

pub data Requesting (A : Type 0) : Type 0 where
  session_call : String → RequestDto A → Requesting A
  not_connected : Requesting A

unfoldable pub request_response : {A : Type 0} → Connection → String → A → String → Requesting A
request_response c procedure payload response_topic =
    if c.is_connected
    then session_call procedure
        (record { reply_to = response_topic; username = c.user_name; payload = payload })
    else not_connected

pub data CallEvent (A : Type 0) : Type 0 where
  resolved : A → CallEvent A
  rejected : String → CallEvent A
  disposes : CallEvent A

module _ {A : Type 0} where
  -- The state is the local variable `isDisposed`.
  unfoldable pub call_step : Bool → CallEvent A → Bool × List (Notification A)
  call_step is_disposed (resolved r) =
      (is_disposed, if is_disposed then [] else (next r ∷ completed ∷ []))
  call_step is_disposed (rejected e) = (is_disposed, if is_disposed then [] else (error e ∷ []))
  call_step is_disposed disposes = (true, [])

  unfoldable pub call_run : Bool → List (CallEvent A) → List (Notification A)
  unfolding call_step
  call_run is_disposed [] = []
  call_run is_disposed (e ∷ es) =
      let (is_disposed', now) = call_step is_disposed e in now ++ call_run is_disposed' es
