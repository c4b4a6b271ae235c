-- ===== src/System/Service/Heartbeats/Timeouts.antt =====
-- When an instance counts as disconnected.
use reactive_trader_cloud.Common.{
  ℕ, suc, ◌+◌, ◌≡◌, refl, ap, Option, none, some, List, [], ◌∷◌, arith, if◌then◌else◌, leb,
}
use reactive_trader_cloud.System.Service.Heartbeats.{
  Output, item, debounced, run, debounce_with_selector,
}

module _ {A : Type 0} where
  abbrev pub items : List (Output A) → List A
  items [] = []
  items (item a ∷ os) = a ∷ items os
  items (debounced a ∷ os) = items os

  abbrev pub payloads : List (ℕ × A) → List A
  payloads [] = []
  payloads ((now, a) ∷ rest) = a ∷ payloads rest

  abbrev pub timeouts : List (Output A) → ℕ
  timeouts [] = 0
  timeouts (item a ∷ os) = timeouts os
  timeouts (debounced a ∷ os) = suc (timeouts os)

  -- The silences that last at least the due time, from `since` on.
  abbrev pub silences : ℕ → ℕ → List (ℕ × A) → ℕ → ℕ
  silences due_time since [] end = if leb (since + due_time) end then 1 else 0
  silences due_time since ((now, a) ∷ rest) end =
      let later = silences due_time now rest end in
      if leb (since + due_time) now then suc later else later

module _ {A : Type 0} (due_time : ℕ) (item_selector : A) where
  items-run :
      (pending : Option ℕ) (source : List (ℕ × A)) (end : ℕ)
      → items (run due_time item_selector pending source end) ≡ payloads source
  unfolding run
  items-run none [] end = refl
  items-run (some due) [] end = ground arith
  items-run none ((now, a) ∷ rest) end = ap (a ∷◌) (items-run (some (now + due_time)) rest end)
  items-run (some due) ((now, a) ∷ rest) end =
      ground (arith, items-run (some (now + due_time)) rest end)

  -- Every item of the source is passed on, in its order, whatever the timing.
  pub items-debounce_with_selector :
      (start : ℕ) (source : List (ℕ × A)) (end : ℕ)
      → items (debounce_with_selector due_time item_selector start source end) ≡ payloads source
  unfolding debounce_with_selector
  items-debounce_with_selector start source end = items-run (some (start + due_time)) source end

  timeouts-run :
      (since : ℕ) (source : List (ℕ × A)) (end : ℕ)
      → timeouts (run due_time item_selector (some (since + due_time)) source end)
        ≡ silences due_time since source end
  unfolding run
  timeouts-run since [] end = ground arith
  timeouts-run since ((now, a) ∷ rest) end = ground (arith, timeouts-run now rest end)

  -- An instance is reported as timed out exactly once for each silence of at least the due time,
  -- counted from the subscription, from each item to the next, and from the last item to the end.
  pub timeouts-debounce_with_selector :
      (start : ℕ) (source : List (ℕ × A)) (end : ℕ)
      → timeouts (debounce_with_selector due_time item_selector start source end)
        ≡ silences due_time start source end
  unfolding debounce_with_selector
  timeouts-debounce_with_selector start source end = timeouts-run start source end
