-- ===== src/Ui/Popouts/Closing.antt =====
-- How often the callback of a popout is called.
use reactive_trader_cloud.Common.{
  ℕ, ◌+◌, ◌≤◌, ◌≡◌, Bool, true, false, not, some, List, [], ◌∷◌, ◌++◌, find, filter, if◌then◌else◌,
  ◌==◌, Option-cases, inl, inr, arith,
}
use reactive_trader_cloud.Ui.Popouts.{
  Tearout, OpenfinPopoutService, Event, main, created, failed, close_requested, window_docked,
  window_undocked, Effect, on_closing, register_window, unregister_window, on_created,
  on_close_requested, on_docked, on_undocked, step, run, new_openfin_popout_service,
}

abbrev one_if : Bool → ℕ
one_if true = 1
one_if false = 0

-- How often some calls call the callback of a window.
abbrev pub closings : ℕ → List Effect → ℕ
closings w [] = 0
closings w (on_closing v ∷ es) = one_if (v == w) + closings w es
closings w (_ ∷ es) = closings w es

-- How often a window is created.
abbrev pub creations : ℕ → List Event → ℕ
creations w [] = 0
creations w (created v o ∷ es) = one_if (v == w) + creations w es
creations w (_ ∷ es) = creations w es

abbrev listeners : ℕ → List Tearout → ℕ
listeners w [] = 0
listeners w (t ∷ ts) = one_if (t.window == w) + listeners w ts

closings-append :
    (w : ℕ) (xs ys : List Effect) → closings w (xs ++ ys) ≡ closings w xs + closings w ys
closings-append w [] ys = omega arith
closings-append w (x ∷ xs) ys = ground (arith, closings-append w xs ys)

listeners-append :
    (w : ℕ) (t : Tearout) (ts : List Tearout)
    → listeners w (ts ++ t ∷ []) ≡ listeners w ts + one_if (t.window == w)
listeners-append w t [] = omega arith
listeners-append w t (u ∷ ts) = omega (arith, listeners-append w t ts)

listeners-filter :
    (w v : ℕ) (ts : List Tearout)
    → listeners w (filter (λ u. not (u.window == v)) ts) ≡ (if v == w then 0 else listeners w ts)
unfolding filter
listeners-filter w v [] = ground arith
listeners-filter w v (t ∷ ts) = ground (arith, listeners-filter w v ts)

found-listens :
    (v : ℕ) (ts : List Tearout) (t : Tearout)
    → find (λ u. u.window == v) ts ≡ some t
    → 1 ≤ listeners v ts
unfolding find
found-listens v [] t e = absurd (ground arith)
found-listens v (u ∷ ts) t e = ground (arith, found-listens v ts t)

creations-cons :
    (w : ℕ) (event : Event) (events : List Event)
    → creations w (event ∷ events) ≡ creations w (event ∷ []) + creations w events
creations-cons w event events = ground arith

-- One step: what it calls and the listeners that it leaves, against those that there were.
abbrev Accounts : ℕ → OpenfinPopoutService → Event → Type 0
Accounts w s event =
    closings w (step s event).1 + listeners w (step s event).0.listening
    ≤ listeners w s.listening + creations w (event ∷ [])

step-Accounts : (w : ℕ) (s : OpenfinPopoutService) (event : Event) → Accounts w s event
unfolding step on_created on_close_requested on_docked on_undocked register_window unregister_window
step-Accounts w s main = omega arith
step-Accounts w s (created v o) =
    ground (arith, listeners-append w (record { window = v; name = o.title }) s.listening)
step-Accounts w s (failed v message) = omega arith
step-Accounts w s (close_requested v) =
    elim (Option-cases (find (λ t. t.window == v) s.listening)) [
      | inl e ↦ ground arith
      | inr (t, e) ↦
          ground (arith, listeners-filter w v s.listening, found-listens v s.listening t e)
    ]
step-Accounts w s (window_docked name) = ground arith
step-Accounts w s (window_undocked name) = ground arith

closings-run_from :
    (w : ℕ) (events : List Event) (s : OpenfinPopoutService)
    → closings w (run s events).1 ≤ listeners w s.listening + creations w events
unfolding run
closings-run_from w [] s = omega arith
closings-run_from w (event ∷ events) s =
    let (s', effects) = step s event in
    omega (
      arith,
      closings-append w effects (run s' events).1,
      step-Accounts w s event,
      closings-run_from w events s',
      creations-cons w event events,
    )

-- Whatever happens at the windows and the docking manager, the callback of a window is called at most
-- as often as a window of that number was created, so once for a window that is created once.
pub closings-run :
    (w : ℕ) (events : List Event)
    → closings w (run new_openfin_popout_service events).1 ≤ creations w events
unfolding new_openfin_popout_service
closings-run w events = omega (arith, closings-run_from w events new_openfin_popout_service)
