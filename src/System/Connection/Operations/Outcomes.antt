-- ===== src/System/Connection/Operations/Outcomes.antt =====
-- What a subscriber to a topic leaves behind, and what a caller of a remote procedure hears.
use reactive_trader_cloud.Common.{
  ℕ, suc, ◌≤◌, ◌≡◌, refl, ap, true, false, Option, none, some, List, [], ◌∷◌, ◌++◌, arith,
}
use reactive_trader_cloud.System.Connection.Operations.{
  Notification, next, error, completed, TopicEvent, acked, failed, received, disposes, TopicEffect,
  notify, unsubscribe, topic_run, CallEvent, resolved, rejected, call_run,
}

abbrev pub to_list : {S : Type 0} → Option S → List S
to_list none = []
to_list (some s) = s ∷ []

module _ {S A : Type 0} where
  -- The subscriptions that are given up.
  abbrev pub unsubscribed : List (TopicEffect S A) → List S
  unsubscribed [] = []
  unsubscribed (notify n ∷ es) = unsubscribed es
  unsubscribed (unsubscribe s ∷ es) = s ∷ unsubscribed es

  -- The subscription acknowledged last, or the one held before.
  abbrev pub last_ack : Option S → List (TopicEvent S A) → Option S
  last_ack sub [] = sub
  last_ack sub (acked s ∷ es) = last_ack (some s) es
  last_ack sub (failed e ∷ es) = last_ack sub es
  last_ack sub (received r ∷ es) = last_ack sub es
  last_ack sub (disposes ∷ es) = last_ack sub es

  abbrev pub IsUndisposed : List (TopicEvent S A) → Type 0
  IsUndisposed [] = Unit
  IsUndisposed (acked s ∷ es) = IsUndisposed es
  IsUndisposed (failed e ∷ es) = IsUndisposed es
  IsUndisposed (received r ∷ es) = IsUndisposed es
  IsUndisposed (disposes ∷ es) = ⊥

  unsubscribed-undisposed :
      (sub : Option S) (es : List (TopicEvent S A))
      → IsUndisposed es
      → unsubscribed (topic_run sub es) ≡ []
  unfolding topic_run
  unsubscribed-undisposed sub [] h = refl
  unsubscribed-undisposed sub (acked s ∷ es) h = unsubscribed-undisposed (some s) es h
  unsubscribed-undisposed sub (failed e ∷ es) h = unsubscribed-undisposed sub es h
  unsubscribed-undisposed sub (received r ∷ es) h = unsubscribed-undisposed sub es h
  unsubscribed-undisposed sub (disposes ∷ es) h = elim h [ ]

  unsubscribed-from :
      (sub : Option S) (before after : List (TopicEvent S A))
      → IsUndisposed before
      → IsUndisposed after
      → unsubscribed (topic_run sub (before ++ disposes ∷ after)) ≡ to_list (last_ack sub before)
  unfolding topic_run
  unsubscribed-from none [] after h k = unsubscribed-undisposed none after k
  unsubscribed-from (some s) [] after h k = ap (s ∷◌) (unsubscribed-undisposed (some s) after k)
  unsubscribed-from sub (acked s ∷ es) after h k = unsubscribed-from (some s) es after h k
  unsubscribed-from sub (failed e ∷ es) after h k = unsubscribed-from sub es after h k
  unsubscribed-from sub (received r ∷ es) after h k = unsubscribed-from sub es after h k
  unsubscribed-from sub (disposes ∷ es) after h k = elim h [ ]

  -- Disposing a subscriber to a topic once gives up exactly the subscription acknowledged last
  -- before; one acknowledged only afterwards is never given up.
  pub unsubscribed-topic_run :
      (before after : List (TopicEvent S A))
      → IsUndisposed before
      → IsUndisposed after
      → unsubscribed (topic_run none (before ++ disposes ∷ after)) ≡ to_list (last_ack none before)
  unsubscribed-topic_run before after h k = unsubscribed-from none before after h k

module _ {A : Type 0} where
  abbrev pub settlements : List (CallEvent A) → ℕ
  settlements [] = 0
  settlements (resolved r ∷ es) = suc (settlements es)
  settlements (rejected e ∷ es) = suc (settlements es)
  settlements (CallEvent.disposes ∷ es) = settlements es

  -- What a caller should hear: the first event decides.
  abbrev pub answer : List (CallEvent A) → List (Notification A)
  answer [] = []
  answer (resolved r ∷ es) = next r ∷ completed ∷ []
  answer (rejected e ∷ es) = error e ∷ []
  answer (CallEvent.disposes ∷ es) = []

  call_run-disposed : (es : List (CallEvent A)) → call_run true es ≡ []
  unfolding call_run
  call_run-disposed [] = refl
  call_run-disposed (resolved r ∷ es) = call_run-disposed es
  call_run-disposed (rejected e ∷ es) = call_run-disposed es
  call_run-disposed (CallEvent.disposes ∷ es) = call_run-disposed es

  call_run-unsettled : (es : List (CallEvent A)) → settlements es ≤ 0 → call_run false es ≡ []
  unfolding call_run
  call_run-unsettled [] h = refl
  call_run-unsettled (resolved r ∷ es) h = absurd (omega arith)
  call_run-unsettled (rejected e ∷ es) h = absurd (omega arith)
  call_run-unsettled (CallEvent.disposes ∷ es) h = call_run-disposed es

  -- For a promise that settles at most once, the caller of a remote procedure hears the result
  -- and its completion, or the error, if the promise settles before the caller disposes, and
  -- nothing otherwise.
  pub call_run-answer :
      (es : List (CallEvent A)) → settlements es ≤ 1 → call_run false es ≡ answer es
  unfolding call_run
  call_run-answer [] h = refl
  call_run-answer (resolved r ∷ es) h =
      ap (λ t. next r ∷ completed ∷ t) (call_run-unsettled es (omega arith))
  call_run-answer (rejected e ∷ es) h = ap (error e ∷◌) (call_run-unsettled es (omega arith))
  call_run-answer (CallEvent.disposes ∷ es) h = call_run-disposed es
