-- ===== src/ClobBench/Counted.antt =====
-- Every order of bench/bench_fixed_clob.cpp is accepted, while there is room.
use Prim.Native.Nat.{bit_and}
use mathlib.Core.Path.{subst}
use lowlat_matching_engine.Common.{
  ℕ, zero, suc, ◌+◌, ◌-◌, ◌*◌, ◌^◌, ◌≤◌, ◌<◌, ◌≡◌, ◌==◌, refl, sym, ap, ap₂, ◌∙◌, inl, inr, arith,
  Bool, true, Bool-cases, List, [], ◌∷◌, ◌++◌, length, length-append,
}
use lowlat_matching_engine.Types.{buy, sell, OrderCommand}
use lowlat_matching_engine.Index.{fast_hash}
use lowlat_matching_engine.Index.Probing.{IsCapacity}
use lowlat_matching_engine.Sink.{null_sink}
use lowlat_matching_engine.Clob
use lowlat_matching_engine.Clob.{Clob, add_order, active_orders}
use lowlat_matching_engine.Clob.Invariant.{InRange, requeue}
use lowlat_matching_engine.Clob.View.{Entry, View, Represents}
use lowlat_matching_engine.Clob.Create.{empty_view, new-Represents}
use lowlat_matching_engine.Clob.Requests.{add_order_accepts}
use lowlat_matching_engine.Clob.Cancel.{IsResting}
use lowlat_matching_engine.Clob.Count.{active_orders-resting}
use lowlat_matching_engine.Clob.Waiting.{orders_resting}
use lowlat_matching_engine.Clob.Sums.{view_sum-requeue}
use lowlat_matching_engine.Clob.Submit.{absent_of_resting}
use lowlat_matching_engine.Workload.{generate, add_only_command, make_add_only_commands}
use lowlat_matching_engine.Workload.OneLevel.{resting_from-nothing}
use lowlat_matching_engine.Workload.OneLevel.Orders.{no_slots}
use lowlat_matching_engine.ClobBench.{
  add_each, bench_orders, bench_book, run_add_only, run_add_then_cancel,
}
use lowlat_matching_engine.ClobBench.Steps.{IsResting-added}
use lowlat_matching_engine.ClobBench.Emptied.{bench_cap, run_add_then_cancel_lem}

-- What the orders of the stream are.
record IsFit (i : ℕ) (command : OrderCommand) : Type 0 where
  pub id_is : command.order_id ≡ i + 1
  pub low : 8000 ≤ command.price
  pub high : command.price ≤ 12000
  pub qty_pos : 0 < command.qty
  pub qty_word : command.qty < 2 ^ 64

add_only_command-IsFit : (i : ℕ) → i < 2 ^ 63 → IsFit i (add_only_command i)
unfolding add_only_command
add_only_command-IsFit i small = elim (Bool-cases (bit_and i 1 == 0)) [
  | inl even ↦ rw even (record {
    id_is = omega (arith, small);
    low = omega arith;
    high = omega arith;
    qty_pos = omega arith;
    qty_word = omega arith;
  })
  | inr odd ↦ rw odd (record {
    id_is = omega (arith, small);
    low = omega arith;
    high = omega arith;
    qty_pos = omega arith;
    qty_word = omega arith;
  })
]

module _ (max_orders : ℕ) (hash : ℕ → ℕ) (cap : IsCapacity (2 * max_orders)) where
  -- `i` orders rest, with ids up to `i`, in a book of the prices of the stream.
  record Grown (c : Clob) (i : ℕ) : Type 0 where
    pub view : View
    pub stored : Represents max_orders hash cap c view
    pub ids : (k : ℕ) → IsResting c view k → k ≤ i
    pub number : orders_resting c.min_price c.max_price view ≡ i
    pub low : c.min_price ≤ 8000
    pub high : 12000 ≤ c.max_price

  add_order-Grown :
      {c : Clob} (i : ℕ) (command : OrderCommand)
      → Grown c i
      → i < max_orders
      → IsFit i command
      → Grown
          (add_order max_orders hash c command.order_id command.side command.price command.qty).1
          (i + 1)
  add_order-Grown {c} i command g room fit =
      let counted = active_orders-resting max_orders hash cap g.stored in
      let range : InRange c command.price =
        (omega (arith, g.low, fit.low), omega (arith, g.high, fit.high)) in
      let absent =
        absent_of_resting max_orders hash cap null_sink command.order_id g.stored
          (λ w. omega (arith, g.ids command.order_id w, fit.id_is)) in
      let (c', is, same, stored) =
        add_order_accepts max_orders hash cap command.order_id command.side command.price
          command.qty (omega (arith, fit.id_is)) g.stored range fit.qty_pos fit.qty_word absent
          (λ e.
            omega
              (arith, counted.1, no_slots max_orders hash cap null_sink 0 c e, g.number, room)) in
      let new : List Entry =
        g.view command.side command.price
        ++ record { order_id = command.order_id; qty = command.qty } ∷ [] in
      subst (λ (c₁ : Clob). Grown c₁ (i + 1)) (sym (ap (λ (p : Bool × Clob). p.1) is))
        (record {
          view = requeue g.view command.side command.price new;
          stored = stored;
          ids = λ k w.
              elim (IsResting-added {c = c} {c' = c'} {v = g.view} command.order_id command.side
                command.price command.qty same k w) [
                  | inl now ↦ omega (arith, now, fit.id_is)
                  | inr old ↦ omega (arith, g.ids k old)
                ];
          number =
              ap₂
                (λ (lo hi : ℕ).
                  orders_resting lo hi (requeue g.view command.side command.price new))
                same.0 same.1
              ∙ omega (
                arith,
                view_sum-requeue (length {0}) c.min_price c.max_price g.view command.side
                    command.price new range.0 range.1,
                length-append (g.view command.side command.price)
                    (record { order_id = command.order_id; qty = command.qty } ∷ []),
                g.number,
              );
          low = omega (arith, same.0, g.low);
          high = omega (arith, same.1, g.high);
        })

  add_each-Grown :
      (command : ℕ → OrderCommand)
      → ((i : ℕ) → i < max_orders → IsFit i (command i))
      → (rounds i : ℕ) (c : Clob) → Grown c i
      → i + rounds ≤ max_orders
      → Grown (add_each max_orders hash c (generate command rounds i)) (i + rounds)
  unfolding add_each generate
  add_each-Grown command fits zero i c g room = subst (Grown c) (omega arith) g
  add_each-Grown command fits (suc rounds) i c g room =
      let next =
        add_order-Grown i (command i) g (omega (arith, room)) (fits i (omega (arith, room))) in
      subst (Grown (add_each max_orders hash c (generate command (suc rounds) i))) (omega arith)
        (add_each-Grown command fits rounds (i + 1) _ next (omega (arith, room)))

-- Up to the capacity of the book, every order of the stream rests at the end of the benchmark that
-- only adds.
pub run_add_only_lem :
    (keys values : ℕ → ℕ) (n : ℕ)
    → n ≤ bench_orders
    → active_orders bench_orders fast_hash (run_add_only keys values n) ≡ n
unfolding run_add_only make_add_only_commands
run_add_only_lem keys values n few =
    let (stored, low, high) =
      new-Represents bench_orders fast_hash bench_cap keys values 8000 12000 (omega arith)
        (omega arith) (omega arith) (omega arith) in
    let c = bench_book keys values in
    let span = c.max_price + 1 - c.min_price in
    let start : Grown bench_orders fast_hash bench_cap c 0 = record {
      view = empty_view;
      stored = stored;
      ids = λ k w. absurd w.waits;
      number = omega (
        arith,
        resting_from-nothing (empty_view buy) span c.min_price (λ x l. refl),
        resting_from-nothing (empty_view sell) span c.min_price (λ x l. refl),
      );
      low = omega (arith, low);
      high = omega (arith, high);
    } in
    let g =
      add_each-Grown bench_orders fast_hash bench_cap add_only_command
        (λ i h. add_only_command-IsFit i (omega (arith, h))) n 0 c start (omega (arith, few)) in
    (active_orders-resting bench_orders fast_hash bench_cap g.stored).0 ∙ g.number ∙ omega arith

-- With no more orders than the book has room for, the benchmark that adds the orders of the stream
-- to a new book ends with all of them at rest, and the one that then cancels each of them ends
-- with an empty book.
pub add_then_cancel_lem :
    (keys values : ℕ → ℕ) (n : ℕ)
    → n ≤ bench_orders
    → (active_orders bench_orders fast_hash (run_add_only keys values n) ≡ n)
      × (Clob.empty bench_orders fast_hash (run_add_then_cancel keys values n) ≡ true)
add_then_cancel_lem keys values n few =
    (run_add_only_lem keys values n few, run_add_then_cancel_lem keys values n (omega (arith, few)))
