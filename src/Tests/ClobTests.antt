-- ===== src/Tests/ClobTests.antt =====
-- src/fixed_clob.hpp at a book of two orders with prices from 1 to 10.
use mathlib.Core.Path.{subst}
use lowlat_matching_engine.Common.{
  ℕ, ◌*◌, if◌then◌else◌, ◌∙◌, ◌<◌, ◌+◌, ◌≡◌, ◌≢◌, ◌↔◌, ◌%◌, ◌^◌, refl, sym, ap, arith, inl, inr,
  eq-cases, Bool, true, false, Option, some, none, List, [], ◌∷◌, length,
}
use lowlat_matching_engine.Types.{Side, buy, sell, Execution}
use lowlat_matching_engine.Pool
use lowlat_matching_engine.Index
use lowlat_matching_engine.Index.{fast_hash}
use lowlat_matching_engine.Index.Probing.{IsCapacity}
use lowlat_matching_engine.Sink.{emit, vector_sink}
use lowlat_matching_engine.Clob
use lowlat_matching_engine.Clob.{
  best_bid, best_ask, quantity_at, order_count_at, front_order_id, back_order_id, active_orders,
  available_slots, Clob, add_order, cancel_order, submit_limit_order, match_order, match_at_level,
  Outcome, Matching, opposite,
}
use lowlat_matching_engine.Clob.Invariant.{requeue, InRange, SameRange}
use lowlat_matching_engine.Clob.View.{View, Entry, Represents, withdraw, quantities}
use lowlat_matching_engine.Clob.Create.{empty_view, new-Represents}
use lowlat_matching_engine.Clob.Requests.{lookup, add_order_accepts, add_order_refuses}
use lowlat_matching_engine.Clob.Cancel.{
  HasId, IsResting, lookup-IsResting, cancel_order_accepts, cancel_order_refuses,
}
use lowlat_matching_engine.Clob.MatchLevel.{match_at_level_lem}
use lowlat_matching_engine.Clob.LevelSteps.{LevelMatched}
use lowlat_matching_engine.Clob.MatchOrder.{Matched, match_order_lem}
use lowlat_matching_engine.Clob.Trades.{traded}
use lowlat_matching_engine.Clob.Submit.{Submitted, submit_rejects, submit_limit_order_lem}
use lowlat_matching_engine.Clob.Queries.{
  front_id, back_id, best_of, IsBestLevel, queries-InRange, index-range_size, queries_out_of_range,
  best_lem,
}
use lowlat_matching_engine.Clob.Count.{active_orders-resting}
use lowlat_matching_engine.Clob.Waiting.{orders_resting}
use lowlat_matching_engine.Clob.Conserve.{resting_quantity}
use lowlat_matching_engine.Clob.Session.{submit_atomic, submit-IsUncrossed, submit_reports}
use lowlat_matching_engine.Clob.Apart.{IsUncrossed, AreFair}

four : IsCapacity 4
four = record { log = 2; single_bit = refl; many = omega arith; word = omega arith }

abbrev blank : Clob
blank = Clob.new 2 fast_hash (λ i. i) (λ i. i) 1 10

new-Represents_example :
    Represents 2 fast_hash four blank empty_view × (blank.min_price ≡ 1) × (blank.max_price ≡ 10)
new-Represents_example =
    new-Represents 2 fast_hash four (λ i. i) (λ i. i) 1 10 (omega arith) (omega arith) (omega arith)
      (omega arith)

five_in : InRange blank 5
unfolding Clob.new
five_in = (omega arith, omega arith)

blank_free : blank.pool.top ≢ 0
unfolding Clob.new Pool.new
blank_free = omega arith

blank_absent : lookup 2 fast_hash four blank 7 ≡ none
unfolding Clob.new Index.find Index.new Index.clear fast_hash
blank_absent = refl

abbrev one_ask : View
one_ask = requeue empty_view sell 5 (record { order_id = 7; qty = 3 } ∷ [])

add_order_accepts_example :
    (c : Clob) × (add_order 2 fast_hash blank 7 sell 5 3 ≡ (true, c))
    × SameRange blank c
    × Represents 2 fast_hash four c one_ask
add_order_accepts_example =
    add_order_accepts 2 fast_hash four 7 sell 5 3 (omega arith) new-Represents_example.0 five_in
      (omega arith) (omega arith) blank_absent blank_free

-- The book with one ask of 3 at 5.
abbrev asked : Clob
asked = (add_order 2 fast_hash blank 7 sell 5 3).1

asked_is : add_order_accepts_example.0 ≡ asked
asked_is = sym (ap (λ (r : Bool × Clob). r.1) add_order_accepts_example.1)

asked_Represents : Represents 2 fast_hash four asked one_ask
asked_Represents =
    subst (λ (c : Clob). Represents 2 fast_hash four c one_ask) asked_is add_order_accepts_example.3

asked_found : lookup 2 fast_hash four asked 7 ≡ some 1
unfolding Clob.new Index.find Index.new Index.clear Index.insert fast_hash Pool.allocate Pool.new
    add_order Clob.place_order Clob.append_to_level Clob.update_best_after_add Clob.level
    Clob.set_level Clob.set_order Index.wrap
asked_found = refl

asked_in : InRange asked 5
asked_in =
    let r = add_order_accepts_example.2 in
    let lo = ap (λ (c : Clob). c.min_price) asked_is in
    let hi = ap (λ (c : Clob). c.max_price) asked_is in
    (omega (arith, r.0, lo, five_in.0), omega (arith, r.1, hi, five_in.1))

asked_top : asked.max_price ≡ 10
asked_top =
    sym (ap (λ (c : Clob). c.max_price) asked_is)
    ∙ add_order_accepts_example.2.1
    ∙ new-Represents_example.2

resting : IsResting asked one_ask 7
resting = record { side = sell; price = 5; price_in = asked_in; waits = inl refl }

-- An id that rests is refused.
add_order_refuses_example : add_order 2 fast_hash asked 7 buy 4 1 ≡ (false, asked)
add_order_refuses_example =
    add_order_refuses 2 fast_hash four 7 buy 4 1 asked_Represents (inr (inr (inr (1, asked_found))))

cancel_order_accepts_example :
    (c : Clob) × (cancel_order 2 fast_hash asked 7 ≡ (true, c))
    × SameRange asked c
    × Represents 2 fast_hash four c (λ s p. withdraw 7 (one_ask s p))
cancel_order_accepts_example =
    cancel_order_accepts 2 fast_hash four 7 1 asked_Represents asked_found

none_rests : ¬ IsResting blank empty_view 7
none_rests w = w.waits

cancel_order_refuses_example : cancel_order 2 fast_hash blank 7 ≡ (false, blank)
cancel_order_refuses_example =
    cancel_order_refuses 2 fast_hash four 7 new-Represents_example.0 none_rests

lookup-IsResting_example :
    (Index.contains 4 fast_hash asked.order_lookup 7 ≡ true) ↔ IsResting asked one_ask 7
lookup-IsResting_example = lookup-IsResting 2 fast_hash four 7 (omega arith) asked_Represents

submit_rejects_example :
    submit_limit_order 2 fast_hash vector_sink asked 7 buy 5 3 []
    ≡ some (record { accepted = false; book = asked; executions = [] })
submit_rejects_example =
    submit_rejects 2 fast_hash four vector_sink 7 buy 5 3 [] asked_Represents (inr (inr resting))

nine_rests : ¬ IsResting asked one_ask 9
nine_rests w = nine w.side w.price w.waits
  where
    not_seven : HasId 9 (record { order_id = 7; qty = 3 } ∷ []) → ⊥
    not_seven (inl e) = omega (arith, e)
    not_seven (inr e) = e

    nine : (s : Side) (p : ℕ) → HasId 9 (one_ask s p) → ⊥
    nine buy p h = h
    nine sell p h = elim (eq-cases p 5) [
      | inl e ↦ not_seven (subst (λ (p : ℕ). HasId 9 (one_ask sell p)) e h)
      | inr ne ↦
          let bare : one_ask sell p ≡ [] = ground (arith, ne) in
          subst (λ (q : List Entry). HasId 9 q) bare h
    ]

abbrev buying : Matching (List Execution)
buying = record { book = asked; incoming_qty = 4; executions = [] }

-- A buy of 4 takes the ask of 3 and rests with 1.
submit_limit_order_lem_example :
    (o : Outcome (List Execution)) × (submit_limit_order 2 fast_hash vector_sink asked 9 buy 5 4 []
      ≡ some o)
    × Submitted 2 fast_hash four vector_sink asked one_ask 9 buy 5 4 [] o
submit_limit_order_lem_example =
    submit_limit_order_lem 2 fast_hash four vector_sink 9 buy 5 4 [] (omega arith) asked_Represents
      asked_in (omega arith) (omega arith) nine_rests

submit_atomic_example :
    (o : Outcome (List Execution)) × (submit_limit_order 2 fast_hash vector_sink asked 9 buy 5 4 []
      ≡ some o)
    × (o.accepted ≡ false → o ≡ record { accepted = false; book = asked; executions = [] })
submit_atomic_example =
    submit_atomic 2 fast_hash four vector_sink 9 buy 5 4 [] (omega arith) asked_Represents
      (omega arith)

one_sided : IsUncrossed asked.min_price asked.max_price one_ask
one_sided bid ask bl bh al ah bne ane = absurd (bne refl)

submit-IsUncrossed_example :
    (o : Outcome (List Execution)) × (submit_limit_order 2 fast_hash vector_sink asked 9 buy 5 4 []
      ≡ some o)
    × (v : View) × Represents 2 fast_hash four o.book v
    × IsUncrossed o.book.min_price o.book.max_price v
submit-IsUncrossed_example =
    submit-IsUncrossed 2 fast_hash four vector_sink 9 buy 5 4 [] (omega arith) asked_Represents
      (omega arith) one_sided

submit_reports_example :
    (o : Outcome (List Execution)) × (submit_limit_order 2 fast_hash vector_sink asked 9 buy 5 4 []
      ≡ some o)
    × (es : List Execution) × (o.executions ≡ emit vector_sink [] es)
    × AreFair buy 5 9 es
    × (v : View) × Represents 2 fast_hash four o.book v
    × (resting_quantity o.book v + 2 * traded es
        ≡ resting_quantity asked one_ask + (if o.accepted then 4 else 0))
submit_reports_example =
    submit_reports 2 fast_hash four vector_sink 9 buy 5 4 [] (omega arith) asked_Represents
      (omega arith)

match_order_lem_example :
    (m : Matching (List Execution)) × (match_order 2 fast_hash vector_sink 3 9 buy 5 buying
      ≡ some m)
    × Matched 2 fast_hash four vector_sink buy 5 9 one_ask buying m
match_order_lem_example =
    match_order_lem 2 fast_hash four vector_sink 9 buy 5 asked_Represents (omega arith)

match_at_level_lem_example :
    (m : Matching (List Execution)) × (match_at_level 2 fast_hash vector_sink 2 sell 5 9 buying
      ≡ some m)
    × LevelMatched 2 fast_hash four vector_sink sell 5 9 one_ask buying m
match_at_level_lem_example =
    match_at_level_lem 2 fast_hash four vector_sink 2 sell 5 9 asked_Represents asked_in
      (omega arith) (omega arith)

abbrev summary :
    Option (Outcome (List Execution))
    → Option (Bool × List Execution × Option (ℕ × ℕ) × Option (ℕ × ℕ))
summary none = none
summary (some o) = some (o.accepted, o.executions, best_bid o.book, best_ask o.book)

-- The run: 3 are traded at 5 and 1 rests.
buy_run :
    summary (submit_limit_order 2 fast_hash vector_sink asked 9 buy 5 4 [])
    ≡ some (
      true,
      record { incoming_order_id = 9; resting_order_id = 7; price = 5; qty = 3 } ∷ [],
      some (5, 1),
      none,
    )
unfolding Clob.new Index.find Index.new Index.clear Index.insert fast_hash Pool.allocate Pool.new
    add_order Clob.place_order Clob.append_to_level Clob.update_best_after_add Clob.level
    Clob.set_level Clob.set_order Index.wrap submit_limit_order match_order match_at_level
    Index.contains Clob.crosses Clob.remove_order_by_index Clob.unlink_from_level Clob.unlink_prev
    Clob.unlink_next Index.erase Pool.release Clob.refresh_best_after_empty_level Clob.scan_down
    Clob.scan_up Clob.reduce_order_quantity best_bid best_ask
buy_run = refl

queries-InRange_example :
    (quantity_at asked sell 5 ≡ quantities (one_ask sell 5) % 2 ^ 64)
    × (order_count_at asked sell 5 ≡ length (one_ask sell 5))
    × (front_order_id asked sell 5 ≡ front_id (one_ask sell 5))
    × (back_order_id asked sell 5 ≡ back_id (one_ask sell 5))
queries-InRange_example = queries-InRange sell 5 asked_Represents asked_in

queries_out_of_range_example :
    (quantity_at blank buy 0 ≡ 0)
    × (order_count_at blank buy 0 ≡ 0)
    × (front_order_id blank buy 0 ≡ none)
    × (back_order_id blank buy 0 ≡ none)
queries_out_of_range_example = queries_out_of_range blank buy 0 out
  where
    out : ¬ InRange blank 0
    out i = omega (arith, i.0, new-Represents_example.1)

best_lem_example : IsBestLevel asked one_ask sell (best_of asked sell)
best_lem_example = best_lem asked_Represents sell

active_orders-resting_example :
    (active_orders 2 fast_hash asked ≡ orders_resting asked.min_price asked.max_price one_ask)
    × (available_slots 2 fast_hash asked + orders_resting asked.min_price asked.max_price one_ask
        ≡ 2)
    × ((Clob.empty 2 fast_hash asked ≡ true)
        ↔ (orders_resting asked.min_price asked.max_price one_ask ≡ 0))
active_orders-resting_example = active_orders-resting 2 fast_hash four asked_Represents

index-range_size_example : Clob.index asked 5 < Clob.range_size asked
index-range_size_example =
    index-range_size asked 5 asked_in (omega (arith, asked_in.0, asked_in.1, asked_top))
      (omega (arith, asked_top))
