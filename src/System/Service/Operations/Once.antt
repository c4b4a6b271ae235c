-- ===== src/System/Service/Operations/Once.antt =====
-- An operation is started once, on the first connected status.
use reactive_trader_cloud.Common.{
  String, ◌≡◌, refl, ap, true, false, Option, none, some, List, [], ◌∷◌, ◌++◌, arith, if◌then◌else◌,
  Bool-cases, inl, inr,
}
use reactive_trader_cloud.System.Connection.Operations.{Notification, next, error, completed}
use reactive_trader_cloud.System.Service.Status.{ServiceInstanceStatus}
use reactive_trader_cloud.System.Service.Operations.{
  OperationEffect, call_remote, subscribe_topic, notify, OperationEvent, status, status_failed,
  status_completed, response, message, remote_procedure, request_run, on_ack, stream_run,
}

module _ {R : Type 0} where
  -- The calls on the connection.
  abbrev pub calls : List (OperationEffect R) → List (OperationEffect R)
  calls [] = []
  calls (call_remote p t ∷ es) = call_remote p t ∷ calls es
  calls (subscribe_topic t ∷ es) = subscribe_topic t ∷ calls es
  calls (notify n ∷ es) = calls es

  -- The first status with which the instance is connected.
  abbrev pub first_connected : List (OperationEvent R) → Option ServiceInstanceStatus
  first_connected [] = none
  first_connected (status s ∷ es) = if s.is_connected then some s else first_connected es
  first_connected (status_failed e ∷ es) = first_connected es
  first_connected (status_completed ∷ es) = first_connected es
  first_connected (response n ∷ es) = first_connected es
  first_connected (message n ∷ es) = first_connected es

  calls-append : (xs ys : List (OperationEffect R)) → calls (xs ++ ys) ≡ calls xs ++ calls ys
  calls-append [] ys = refl
  calls-append (call_remote p t ∷ xs) ys = ap (call_remote p t ∷◌) (calls-append xs ys)
  calls-append (subscribe_topic t ∷ xs) ys = ap (subscribe_topic t ∷◌) (calls-append xs ys)
  calls-append (notify n ∷ xs) ys = calls-append xs ys

  calls-on_ack : (name : String) (n : Notification R) → calls (on_ack name n) ≡ []
  calls-on_ack name (next r) = refl
  calls-on_ack name (error e) = refl
  calls-on_ack name completed = refl

  module _ (operation_name : String) where
    calls-request_subscribed :
        (es : List (OperationEvent R)) → calls (request_run operation_name true es) ≡ []
    unfolding request_run
    calls-request_subscribed [] = refl
    calls-request_subscribed (status s ∷ es) = ground (arith, calls-request_subscribed es)
    calls-request_subscribed (status_failed e ∷ es) = calls-request_subscribed es
    calls-request_subscribed (status_completed ∷ es) = calls-request_subscribed es
    calls-request_subscribed (response n ∷ es) = calls-request_subscribed es
    calls-request_subscribed (message n ∷ es) = calls-request_subscribed es

    -- The remote procedure that a connected instance offers, called once, or never.
    abbrev pub request_calls : Option ServiceInstanceStatus → List (OperationEffect R)
    request_calls none = []
    request_calls (some s) = call_remote (remote_procedure s operation_name) "" ∷ []

    -- A request-response operation calls the remote procedure of the first connected status of its
    -- instance, once and with no response topic, and nothing if there is no such status.
    pub calls-request_run :
        (es : List (OperationEvent R))
        → calls (request_run operation_name false es) ≡ request_calls (first_connected es)
    unfolding request_run
    calls-request_run [] = refl
    calls-request_run (status s ∷ es) = elim (Bool-cases s.is_connected) [
      | inl e ↦ ground (arith, calls-request_subscribed es)
      | inr e ↦ ground (arith, calls-request_run es)
    ]
    calls-request_run (status_failed e ∷ es) = calls-request_run es
    calls-request_run (status_completed ∷ es) = calls-request_run es
    calls-request_run (response n ∷ es) = calls-request_run es
    calls-request_run (message n ∷ es) = calls-request_run es

    module _ (topic_name : String) where
      calls-stream_subscribed :
          (es : List (OperationEvent R)) → calls (stream_run operation_name topic_name true es) ≡ []
      unfolding stream_run
      calls-stream_subscribed [] = refl
      calls-stream_subscribed (status s ∷ es) = ground (arith, calls-stream_subscribed es)
      calls-stream_subscribed (status_failed e ∷ es) = calls-stream_subscribed es
      calls-stream_subscribed (status_completed ∷ es) = calls-stream_subscribed es
      calls-stream_subscribed (response (next r) ∷ es) = calls-stream_subscribed es
      calls-stream_subscribed (response (error e) ∷ es) = calls-stream_subscribed es
      calls-stream_subscribed (response completed ∷ es) = calls-stream_subscribed es
      calls-stream_subscribed (message n ∷ es) = calls-stream_subscribed es

      abbrev pub stream_calls : Option ServiceInstanceStatus → List (OperationEffect R)
      stream_calls none = []
      stream_calls (some s) =
          subscribe_topic topic_name
          ∷ call_remote (remote_procedure s operation_name) topic_name
          ∷ []

      -- A stream operation subscribes to its topic and then calls the remote procedure of the first
      -- connected status of its instance with that topic, each once, and calls nothing if there is
      -- no such status.
      pub calls-stream_run :
          (es : List (OperationEvent R))
          → calls (stream_run operation_name topic_name false es)
            ≡ stream_calls (first_connected es)
      unfolding stream_run
      calls-stream_run [] = refl
      calls-stream_run (status s ∷ es) = elim (Bool-cases s.is_connected) [
        | inl e ↦ ground (arith, calls-stream_subscribed es)
        | inr e ↦ ground (arith, calls-stream_run es)
      ]
      calls-stream_run (status_failed e ∷ es) = calls-stream_run es
      calls-stream_run (status_completed ∷ es) = calls-stream_run es
      calls-stream_run (response (next r) ∷ es) = calls-stream_run es
      calls-stream_run (response (error e) ∷ es) = calls-stream_run es
      calls-stream_run (response completed ∷ es) = calls-stream_run es
      calls-stream_run (message n ∷ es) = calls-stream_run es
