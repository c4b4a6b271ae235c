-- ===== src/Services/Execution/Report.antt =====
-- A trade is not silent for longer than the time of the report.
use mathlib.Core.List.{append_assoc}
use reactive_trader_cloud.Common.{
  ℕ, ◌+◌, ◌≤◌, String, Bool, true, false, Option, none, some, List, [], ◌∷◌, ◌++◌, ◌≡◌, refl, sym,
  ap, ◌∙◌, ◌⊎◌, inl, inr, arith,
}
use reactive_trader_cloud.Common.Result.{Result}
use reactive_trader_cloud.Services.Models.{CurrencyPair}
use reactive_trader_cloud.Services.Execution.{
  Merged, Execution, checking, requesting, Event, limit_checked, Output, on_report,
  on_request_timeout, advance, on_answer, handle, run, timed_out,
}

-- The observer is given something.
abbrev pub speaks : List Output → Bool
speaks [] = false
speaks (x ∷ xs) = true

speaks-append : (xs ys : List Output) → speaks xs ≡ true → speaks (xs ++ ys) ≡ true
speaks-append [] ys e = cc
speaks-append (x ∷ xs) ys e = refl

speaks-later : (xs ys : List Output) → speaks ys ≡ true → speaks (xs ++ ys) ≡ true
speaks-later [] ys e = e
speaks-later (x ∷ xs) ys e = refl

module _ (get_currency_pair : String → Result CurrencyPair) where
  -- An event with the timers before it.
  abbrev both : ℕ → Event → Execution → Execution × List Output
  both now event e =
      let (e', due) = advance now e in
      let (e'', outputs) = handle get_currency_pair now event e' in (e'', due ++ outputs)

  IsHeld : Merged → Execution × List Output → Type 0
  IsHeld m r =
      (speaks r.1 ≡ true)
      ⊎ (r.0 ≡ requesting m)
      ⊎ (r.0 ≡ requesting (record m { request_due = none }))

  abbrev held : Option ℕ → ℕ → Merged
  held request d = record { request_due = request; report_due = some d }

  both-IsHeld :
      (now d : ℕ) (event : Event) (request : Option ℕ)
      → IsHeld (held request d) (both now event (requesting (held request d)))
  unfolding IsHeld advance handle on_report on_request_timeout on_answer timed_out
  both-IsHeld now d event request = ground arith

  advance-speaks :
      (end d : ℕ) (request : Option ℕ)
      → d ≤ end
      → speaks (advance end (requesting (held request d))).1 ≡ true
  unfolding advance on_report on_request_timeout
  advance-speaks end d request h = ground arith

  run-speaks :
      (d end : ℕ) (events : List (ℕ × Event)) (request : Option ℕ)
      → d ≤ end
      → speaks (run get_currency_pair (requesting (held request d)) events end) ≡ true
  unfolding run IsHeld
  run-speaks d end [] request h = advance-speaks end d request h
  run-speaks d end ((now, event) ∷ events) request h =
      let (e', due) = advance now (requesting (held request d)) in
      let (e'', outputs) = handle get_currency_pair now event e' in
      let rest = run get_currency_pair e'' events end in
      let go = λ (o : Option ℕ) (q : e'' ≡ requesting (held o d)).
        speaks-later due (outputs ++ rest) (
          speaks-later outputs rest (
            ap (λ x. speaks (run get_currency_pair x events end)) q
            ∙ run-speaks d end events o h)) in
      elim (both-IsHeld now d event request) [
        | inl e ↦
            ap speaks (sym (append_assoc due outputs rest)) ∙ speaks-append (due ++ outputs) rest e
        | inr (inl q) ↦ go request q
        | inr (inr q) ↦ go none q
      ]

  -- A trade whose limit check passes: whatever the request does, two seconds after the check the
  -- observer has been given something.
  pub run-reported :
      (checked end : ℕ) (events : List (ℕ × Event))
      → checked + 2000 ≤ end
      → speaks (run get_currency_pair checking ((checked, limit_checked true) ∷ events) end) ≡ true
  unfolding run advance handle
  run-reported checked end events h =
      run-speaks (checked + 2000) end events (some (checked + 30000)) h
