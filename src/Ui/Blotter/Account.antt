-- ===== src/Ui/Blotter/Account.antt =====
-- The blotter as a table of trades by id, the order and the marks of the rows forgotten.
use text.Mathlib.TextEquality.{IsScalar-prop}
use mathlib.Core.Logic.{∥∥₁_elim}
use mathlib.Core.List.{Perm, Permᴰ, Nodup, Nodup-cons, Mem, mem-cons_self, reverse_perm}
use mathlib.Core.List.Perm
use reactive_trader_cloud.Common.{
  ℕ, ◌≡◌, refl, sym, ap, ◌∙◌, subst, Bool, true, false, Option, some, none, List, [], ◌∷◌, find,
  map, reverse, if◌then◌else◌, ◌==◌, Bool-cases, inl, inr, arith, All,
}
use reactive_trader_cloud.Services.Models.{Trade, TradesUpdate, TradeRow}
use reactive_trader_cloud.Ui.Arrays.{modify_first, find_index-cases}
use reactive_trader_cloud.Ui.Blotter.{
  SortTrades, BlotterModel, new, Event, trades_update, init, reference_data_loaded,
  tear_off_blotter, highlight_trade_row, end_highlight_trade_row, fetch_blotter, service_status,
  has_id, new_trade_row, on_trades_update, on_highlight_trade_row, on_end_highlight_trade_row,
  on_service_status, step, run,
}
use reactive_trader_cloud.Ui.Blotter.Ids.{sent_ids, IsPlainEvent}
use reactive_trader_cloud.Ui.Blotter.Updates.{shown, latest, shown-on_trades_update}

Trade-IsSet : IsSet (Option Trade)
Trade-IsSet = hlevel (IsScalar-prop)

abbrev pub is_trade : ℕ → Trade → Bool
is_trade k t = t.trade_id == k

found_once :
    (k : ℕ) (a b : Trade) (l : List Trade)
    → Nodup (sent_ids (a ∷ b ∷ l))
    → find (is_trade k) (a ∷ b ∷ l) ≡ find (is_trade k) (b ∷ a ∷ l)
unfolding find
found_once k a b l n =
    let differ : ¬ (a.trade_id ≡ b.trade_id) =
      λ e. (Nodup-cons.0 n).0 (subst (λ i. Mem i (sent_ids (b ∷ l))) (sym e) mem-cons_self) in
    ground (arith, differ)

-- Where no id occurs twice, the order does not matter to a search by id.
find-Permᴰ :
    (k : ℕ) {xs ys : List Trade}
    → Permᴰ xs ys
    → Nodup (sent_ids xs)
    → find (is_trade k) xs ≡ find (is_trade k) ys
unfolding find
find-Permᴰ k Permᴰ.nil n = refl
find-Permᴰ k (Permᴰ.cons {a = a} {b = b} {l₁ = l₁} {l₂ = l₂} e p) n =
    let rest = find-Permᴰ k p (Nodup-cons.0 n).1 in
    ap (λ x. find (is_trade k) (x ∷ l₁)) e ∙ ap (λ o. if is_trade k b then some b else o) rest
find-Permᴰ k (Permᴰ.swap {a = a} {b = b} {a' = a'} {b' = b'} {l = l} e f) n =
    found_once k a b l n
    ∙ ap (λ x. find (is_trade k) (x ∷ a ∷ l)) f
    ∙ ap (λ x. find (is_trade k) (a' ∷ x ∷ l)) e
find-Permᴰ k (Permᴰ.trans p q) n =
    find-Permᴰ k p n ∙ find-Permᴰ k q (Perm.nodup (Perm.map (λ t. t.trade_id) ∣ p ∣₁) n)

find-Perm :
    (k : ℕ) (xs ys : List Trade)
    → Perm xs ys
    → Nodup (sent_ids xs)
    → find (is_trade k) xs ≡ find (is_trade k) ys
find-Perm k xs ys p n =
    ∥∥₁_elim p (Trade-IsSet (find (is_trade k) xs) (find (is_trade k) ys)) (λ d. find-Permᴰ k d n)

shown-rows : (k : ℕ) (ts : List Trade) → shown k (map new_trade_row ts) ≡ find (is_trade k) ts
unfolding shown find new_trade_row
shown-rows k [] = refl
shown-rows k (t ∷ ts) = ground (arith, shown-rows k ts)

shown-modify :
    (k : ℕ) (f : TradeRow → TradeRow) (id : ℕ) (rows : List TradeRow)
    → ((r : TradeRow) → (f r).trade ≡ r.trade)
    → shown k (modify_first (has_id id) f rows) ≡ shown k rows
unfolding shown find modify_first
shown-modify k f id [] h = refl
shown-modify k f id (r ∷ rows) h = elim (Bool-cases (has_id id r)) [
  | inl e ↦ ground (arith, h r)
  | inr e ↦ ground (arith, shown-modify k f id rows h)
]

shown-highlight :
    (k : ℕ) (t : Trade) (m : BlotterModel)
    → shown k (on_highlight_trade_row t m).0.trades ≡ shown k m.trades
unfolding on_highlight_trade_row
shown-highlight k t m =
    let f = λ (r : TradeRow). record r { is_in_focus = some true } in
    elim (find_index-cases (has_id t.trade_id) f m.trades) [
      | inl (i, e, c, a) ↦
          rw (on_highlight_trade_row, e)
            (ap (shown k) c ∙ shown-modify k f t.trade_id m.trades (λ r. refl))
      | inr (e, n) ↦ rw (on_highlight_trade_row, e) refl
    ]

shown-end_highlight :
    (k : ℕ) (t : Trade) (m : BlotterModel)
    → shown k (on_end_highlight_trade_row t m).trades ≡ shown k m.trades
unfolding on_end_highlight_trade_row
shown-end_highlight k t m =
    let f = λ (r : TradeRow). record r { is_in_focus = some false } in
    elim (find_index-cases (has_id t.trade_id) f m.trades) [
      | inl (i, e, c, a) ↦
          rw (on_end_highlight_trade_row, e)
            (ap (shown k) c ∙ shown-modify k f t.trade_id m.trades (λ r. refl))
      | inr (e, n) ↦ rw (on_end_highlight_trade_row, e) refl
    ]

-- The trades by id: a state of the world replaces them all, another update those that it has, and a
-- service that is not connected leaves none.
abbrev pub Table : Type 0
Table = ℕ → Option Trade

abbrev pub blank : Table
blank = λ k. none

abbrev pub table_step : Table → Event → Table
table_step f (trades_update u) =
    if u.is_state_of_the_world
    then (λ k. find (is_trade k) u.trades)
    else (λ k. latest k u.trades (f k))
table_step f (service_status connected) = if connected then f else blank
table_step f _ = f

abbrev pub table : Table → List Event → Table
table f [] = f
table f (event ∷ events) = table (table_step f event) events

module _ (lodash : SortTrades) where
  shown-sow :
      (u : TradesUpdate) (m : BlotterModel) (k : ℕ)
      → u.is_state_of_the_world ≡ true
      → IsPlainEvent (trades_update u)
      → shown k (on_trades_update lodash u m).0.trades ≡ find (is_trade k) u.trades
  unfolding on_trades_update
  shown-sow u m k e n =
      let sorted = lodash.sort_by_trade_id u.trades in
      let p = Perm.trans (reverse_perm sorted) (lodash.same_trades u.trades) in
      let plain : Nodup (sent_ids u.trades) =
        subst (λ b. if b then Nodup (sent_ids u.trades) else Unit) e n in
      rw e (
        shown-rows k (reverse sorted)
        ∙ find-Perm k (reverse sorted) u.trades p
            (Perm.nodup (Perm.symm (Perm.map (λ t. t.trade_id) p)) plain))

  shown-step :
      (event : Event) (m : BlotterModel) (f : Table)
      → IsPlainEvent event
      → ((k : ℕ) → shown k m.trades ≡ f k)
      → (k : ℕ) → shown k (step lodash event m).0.trades ≡ table_step f event k
  unfolding step on_service_status shown find
  shown-step init m f n h k = h k
  shown-step reference_data_loaded m f n h k = h k
  shown-step tear_off_blotter m f n h k = h k
  shown-step (highlight_trade_row t) m f n h k = shown-highlight k t m ∙ h k
  shown-step (end_highlight_trade_row t) m f n h k = shown-end_highlight k t m ∙ h k
  shown-step (fetch_blotter uuid) m f n h k = h k
  shown-step (trades_update u) m f n h k = elim (Bool-cases u.is_state_of_the_world) [
    | inl e ↦ shown-sow u m k e n ∙ rw e refl
    | inr e ↦ shown-on_trades_update lodash u m k e ∙ ap (latest k u.trades) (h k) ∙ rw e refl
  ]
  shown-step (service_status true) m f n h k = h k
  shown-step (service_status false) m f n h k = refl

  shown-run_from :
      (events : List Event) (m : BlotterModel) (f : Table)
      → All IsPlainEvent events
      → ((k : ℕ) → shown k m.trades ≡ f k)
      → (k : ℕ) → shown k (run lodash m events).0.trades ≡ table f events k
  unfolding run
  shown-run_from [] m f n h k = h k
  shown-run_from (event ∷ events) m f n h k =
      shown-run_from events (step lodash event m).0 (table_step f event) n.1
        (shown-step event m f n.0 h) k

  -- After any events, where no state of the world names a trade id twice, the first row of the blotter
  -- with an id shows the trade that the plain table of the events has for it: the one of the last
  -- state of the world, changed by the later updates, and none after the service was lost; this for
  -- every sortBy that orders the trades by id and permutes them.
  pub shown-run :
      (events : List Event) (k : ℕ)
      → All IsPlainEvent events
      → shown k (run lodash new events).0.trades ≡ table blank events k
  unfolding new shown find
  shown-run events k n = shown-run_from events new blank n (λ j. refl) k
