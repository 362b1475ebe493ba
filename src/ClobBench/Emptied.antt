-- ===== src/ClobBench/Emptied.antt =====
-- Cancelling every order that was added leaves what was there before, with no order of these ids.
use lowlat_matching_engine.Common.{
  ℕ, ◌+◌, ◌-◌, ◌*◌, ◌^◌, ◌<◌, ◌≡◌, ◌≢◌, refl, sym, ◌∙◌, ◌⊎◌, inl, inr, arith, true, List, [], ◌∷◌,
}
use lowlat_matching_engine.Types.{Side, buy, sell, OrderCommand}
use lowlat_matching_engine.Index.{fast_hash}
use lowlat_matching_engine.Index.Probing.{IsCapacity}
use lowlat_matching_engine.Clob
use lowlat_matching_engine.Clob.{Clob}
use lowlat_matching_engine.Clob.Invariant.{InRange, SameRange}
use lowlat_matching_engine.Clob.View.{Entry, View, Represents, Represents_congr}
use lowlat_matching_engine.Clob.Create.{empty_view, new-Represents}
use lowlat_matching_engine.Clob.Cancel.{HasId, IsResting}
use lowlat_matching_engine.Clob.Count.{active_orders-resting}
use lowlat_matching_engine.Workload.{make_add_only_commands}
use lowlat_matching_engine.Workload.OneLevel.{resting_from-nothing}
use lowlat_matching_engine.Pipeline.Commands.{AreCommands}
use lowlat_matching_engine.MatchingBench.Streams.{add_only-Limits}
use lowlat_matching_engine.ClobBench.{add_each, cancel_each, bench_orders, run_add_then_cancel}
use lowlat_matching_engine.ClobBench.Steps.{After, add_order-After, cancel_order-After}

-- A command has a given id.
abbrev pub Named : ℕ → List OrderCommand → Type 0
Named k [] = ⊥
Named k (command ∷ rest) = (k ≡ command.order_id) ⊎ Named k rest

module _ (max_orders : ℕ) (hash : ℕ → ℕ) (cap : IsCapacity (2 * max_orders)) where
  -- One step after another.
  After-trans :
      {c c₁ c₂ : Clob} {A B : ℕ → Type 0}
      → SameRange c c₁
      → ((k : ℕ) → A k → B k)
      → After max_orders hash cap c₁ A c₂
      → After max_orders hash cap c B c₂
  After-trans same more a = record {
    view = a.view;
    stored = a.stored;
    range = (a.range.0 ∙ same.0, a.range.1 ∙ same.1);
    resting = λ k w. more k (a.resting k w);
  }

  add_each_lem :
      (commands : List OrderCommand) {c : Clob} {v : View}
      → Represents max_orders hash cap c v
      → AreCommands commands
      → After max_orders hash cap c
          (λ k. Named k commands ⊎ IsResting c v k)
          (add_each max_orders hash c commands)
  unfolding add_each
  add_each_lem [] {v = v} r words = record {
    view = v;
    stored = r;
    range = (refl, refl);
    resting = λ k w. inr w;
  }
  add_each_lem (command ∷ rest) {c} {v} r words =
      let first =
        add_order-After max_orders hash cap command.order_id command.side command.price command.qty
          words.0 r words.1 in
      After-trans first.range (λ k. either k (first.resting k))
        (add_each_lem rest first.stored words.2)
    where
      either :
          {A : Type 0} (k : ℕ)
          → (A → (k ≡ command.order_id) ⊎ IsResting c v k)
          → Named k rest ⊎ A
          → Named k (command ∷ rest) ⊎ IsResting c v k
      either k before (inl later) = inl (inr later)
      either k before (inr w) = elim (before w) [ inl now ↦ inl (inl now) | inr old ↦ inr old ]

  cancel_each_lem :
      (commands : List OrderCommand) {c : Clob} {v : View}
      → Represents max_orders hash cap c v
      → After max_orders hash cap c
          (λ k. IsResting c v k × (¬ Named k commands))
          (cancel_each max_orders hash c commands)
  unfolding cancel_each
  cancel_each_lem [] {v = v} r = record {
    view = v;
    stored = r;
    range = (refl, refl);
    resting = λ k w. (w, λ n. n);
  }
  cancel_each_lem (command ∷ rest) {c} {v} r =
      let first = cancel_order-After max_orders hash cap command.order_id r in
      After-trans first.range
        (λ k w. let old = first.resting k w.0 in (old.0, not_named k old.1 w.1))
        (cancel_each_lem rest first.stored)
    where
      not_named : (k : ℕ) → k ≢ command.order_id → (¬ Named k rest) → ¬ Named k (command ∷ rest)
      not_named k first later (inl now) = first now
      not_named k first later (inr n) = later n

  -- Adding the orders of a list of commands with ids other than 0 and 64-bit quantities to a
  -- well-formed book and then cancelling each of them leaves a well-formed book of the same range of prices, in which only
  -- orders rest that rested before and whose id no command has.
  pub cancel_each-add_each :
      {c : Clob} {v : View} (commands : List OrderCommand)
      → Represents max_orders hash cap c v
      → AreCommands commands
      → After max_orders hash cap c
          (λ k. IsResting c v k × (¬ Named k commands))
          (cancel_each max_orders hash (add_each max_orders hash c commands) commands)
  cancel_each-add_each {c} {v} commands r words =
      let added = add_each_lem commands r words in
      After-trans added.range (λ k w. (only k w.1 (added.resting k w.0), w.1))
        (cancel_each_lem commands added.stored)
    where
      only : (k : ℕ) → (¬ Named k commands) → Named k commands ⊎ IsResting c v k → IsResting c v k
      only k new (inl n) = absurd (new n)
      only k new (inr w) = w

  -- Where no order rests, the book is empty.
  nothing_rests :
      {c : Clob} {v : View}
      → Represents max_orders hash cap c v
      → ((k : ℕ) → ¬ IsResting c v k)
      → Clob.empty max_orders hash c ≡ true
  nothing_rests {c} {v} r none_there =
      let bare =
        Represents_congr max_orders hash cap c v empty_view
          (λ s p i. sym (blank s p i (v s p) refl)) r in
      let span = c.max_price + 1 - c.min_price in
      (active_orders-resting max_orders hash cap bare).2.1 (
        omega (
          arith,
          resting_from-nothing (empty_view buy) span c.min_price (λ x l. refl),
          resting_from-nothing (empty_view sell) span c.min_price (λ x l. refl),
        ))
    where
      blank : (s : Side) (p : ℕ) → InRange c p → (q : List Entry) → v s p ≡ q → v s p ≡ []
      blank s p i [] is = is
      blank s p i (e ∷ q) is = absurd (
          none_there e.order_id (record {
            side = s;
            price = p;
            price_in = i;
            waits = mathlib.Core.Path.subst (HasId e.order_id) (sym is) (inl refl);
          }))

pub bench_cap : IsCapacity (2 * bench_orders)
bench_cap = record { log = 21; single_bit = refl; many = omega arith; word = omega arith }

-- The benchmark that adds a 64-bit number of orders and cancels them ends with an empty book.
pub run_add_then_cancel_lem :
    (keys values : ℕ → ℕ) (n : ℕ)
    → n < 2 ^ 64
    → Clob.empty bench_orders fast_hash (run_add_then_cancel keys values n) ≡ true
unfolding run_add_then_cancel
run_add_then_cancel_lem keys values n few =
    let (stored, low, high) =
      new-Represents bench_orders fast_hash bench_cap keys values 8000 12000 (omega arith)
        (omega arith) (omega arith) (omega arith) in
    let after =
      cancel_each-add_each bench_orders fast_hash bench_cap (make_add_only_commands n) stored
        (add_only-Limits n few).1 in
    nothing_rests bench_orders fast_hash bench_cap after.stored (λ k w. (after.resting k w).0.waits)
