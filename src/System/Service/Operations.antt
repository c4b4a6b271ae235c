-- ===== src/System/Service/Operations.antt =====
-- `createRequestResponseOperation` and `createStreamOperation` of
-- src/client/src/system/service/serviceClient.js: the handler of the statuses of the chosen instance
-- and those of the calls that it starts.
pub mod Once
use reactive_trader_cloud.Common.{
  String, Bool, true, false, List, [], ◌∷◌, ◌++◌, ◌<>◌, if◌then◌else◌,
}
use reactive_trader_cloud.System.Connection.Operations.{Notification, next, error, completed}
use reactive_trader_cloud.System.Service.Status.{ServiceInstanceStatus}

-- Calls on the connection and on the observer; `R` is the type of the payloads.
pub data OperationEffect (R : Type 0) : Type 0 where
  call_remote : String → String → OperationEffect R  -- the procedure and the response topic
  subscribe_topic : String → OperationEffect R
  notify : Notification R → OperationEffect R

pub data OperationEvent (R : Type 0) : Type 0 where
  status : ServiceInstanceStatus → OperationEvent R  -- of the chosen instance
  status_failed : String → OperationEvent R
  status_completed : OperationEvent R
  response : Notification R → OperationEvent R  -- from the remote procedure
  message : Notification R → OperationEvent R  -- from the topic

abbrev pub remote_procedure : ServiceInstanceStatus → String → String
remote_procedure s operation_name = s.service_id <> "." <> operation_name

module _ {R : Type 0} (operation_name : String) where
  -- The state is the variable `hasSubscribed`.
  unfoldable pub request_step : Bool → OperationEvent R → Bool × List (OperationEffect R)
  request_step has_subscribed (status s) =
      if s.is_connected
      then (if has_subscribed
          then (true, [])
          else (true, call_remote (remote_procedure s operation_name) "" ∷ []))
      else (
        has_subscribed,
        notify (error "Service instance is disconnected for request response operation") ∷ [],
      )
  request_step has_subscribed (status_failed e) = (has_subscribed, notify (error e) ∷ [])
  request_step has_subscribed status_completed = (has_subscribed, notify completed ∷ [])
  request_step has_subscribed (response n) = (has_subscribed, notify n ∷ [])
  request_step has_subscribed (message n) = (has_subscribed, [])

  unfoldable pub request_run : Bool → List (OperationEvent R) → List (OperationEffect R)
  unfolding request_step
  request_run has_subscribed [] = []
  request_run has_subscribed (e ∷ es) =
      let (has_subscribed', now) = request_step has_subscribed e in
      now ++ request_run has_subscribed' es

  -- Of the remote procedure's answers only an error is passed on.
  abbrev pub on_ack : Notification R → List (OperationEffect R)
  on_ack (next r) = []
  on_ack (error e) = notify (error e) ∷ []
  on_ack completed = []

  unfoldable pub stream_step : String → Bool → OperationEvent R → Bool × List (OperationEffect R)
  stream_step topic_name has_subscribed (status s) =
      if s.is_connected
      then (if has_subscribed then (true, []) else (
        true,
        subscribe_topic topic_name
            ∷ call_remote (remote_procedure s operation_name) topic_name
            ∷ [],
      ))
      else (
        has_subscribed,
        notify (error "Service instance is disconnected for stream operation") ∷ [],
      )
  stream_step topic_name has_subscribed (status_failed e) = (has_subscribed, notify (error e) ∷ [])
  stream_step topic_name has_subscribed status_completed = (has_subscribed, notify completed ∷ [])
  stream_step topic_name has_subscribed (response n) = (has_subscribed, on_ack n)
  stream_step topic_name has_subscribed (message n) = (has_subscribed, notify n ∷ [])

  unfoldable pub stream_run : String → Bool → List (OperationEvent R) → List (OperationEffect R)
  unfolding stream_step
  stream_run topic_name has_subscribed [] = []
  stream_run topic_name has_subscribed (e ∷ es) =
      let (has_subscribed', now) = stream_step topic_name has_subscribed e in
      now ++ stream_run topic_name has_subscribed' es
