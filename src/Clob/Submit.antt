-- ===== src/Clob/Submit.antt =====
-- `submit_limit_order` of src/fixed_clob.hpp on every branch: refused, filled, or rested.
use mathlib.Core.Path.{subst}
use lowlat_matching_engine.Common.{
  ℕ, ◌+◌, ◌*◌, ◌^◌, ◌<◌, ◌≡◌, ◌≢◌, refl, sym, ap, ◌∙◌, ◌⊎◌, inl, inr, arith, none, some, List, [],
  ◌∷◌, ◌++◌, eq-cases, true, false, Bool, Bool-cases, Option-cases, ◌==◌, ◌||◌, not, if◌then◌else◌,
}
use lowlat_matching_engine.Types.{Side, Execution}
use lowlat_matching_engine.Index
use lowlat_matching_engine.Index.{IsId}
use lowlat_matching_engine.Index.Probing.{IsCapacity}
use lowlat_matching_engine.Sink.{Sink, emit}
use lowlat_matching_engine.Clob.{
  Clob, valid_price, Matching, Outcome, match_order, add_order, submit_limit_order,
}
use lowlat_matching_engine.Clob.Invariant.{requeue, InRange, SameRange}
use lowlat_matching_engine.Clob.View.{View, Represents}
use lowlat_matching_engine.Clob.Requests.{
  lookup, valid_price-true, valid_price-false, add_order_accepts, add_order_refuses,
}
use lowlat_matching_engine.Clob.Cancel.{IsResting, contains-IsResting}
use lowlat_matching_engine.Clob.Trades.{Uncrossed, Trades, Trades-left, Trades-HasId, Trades-end}
use lowlat_matching_engine.Clob.MatchOrder.{Matched, match_order_lem}

pub inrange_cases : (c : Clob) (p : ℕ) → InRange c p ⊎ (¬ InRange c p)
inrange_cases c p = elim (Bool-cases (valid_price c p)) [
  | inl valid ↦ inl (ground (arith, valid), ground (arith, valid))
  | inr bad ↦ inr (λ r. let t = valid_price-true c p r in ground (arith, t, bad))
]

module _ (max_orders : ℕ) (hash : ℕ → ℕ) (cap : IsCapacity (2 * max_orders)) {S : Type 0}
    (sink : Sink S) where
  -- What a submission that passes the checks does: the order trades, and is filled; or trades and
  -- rests with what is left; or, where it neither trades nor finds a free slot, is refused.
  pub data Submitted (c : Clob) (v : View) (order_id : ℕ) (side : Side) (price qty : ℕ)
      (executions : S) (o : Outcome S) : Type 0 where
    filled :
        (v' : View) (es : List Execution)
        → Trades c.min_price c.max_price side price order_id v qty es v' 0
        → o.accepted ≡ true
        → SameRange c o.book
        → Represents max_orders hash cap o.book v'
        → o.executions ≡ emit sink executions es
        → Submitted c v order_id side price qty executions o
    rested :
        (v' : View) (es : List Execution) (left : ℕ)
        → 0 < left
        → Trades c.min_price c.max_price side price order_id v qty es v' left
        → o.accepted ≡ true
        → SameRange c o.book
        → Represents max_orders hash cap o.book (
            requeue v' side price
              (v' side price ++ record { order_id = order_id; qty = left } ∷ []))
        → o.executions ≡ emit sink executions es
        → Submitted c v order_id side price qty executions o
    no_slot :
        c.pool.top ≡ 0
        → Uncrossed c.min_price c.max_price side price v
        → o ≡ record { accepted = false; book = c; executions = executions }
        → Submitted c v order_id side price qty executions o

  abbrev refusal : Clob → S → Outcome S
  refusal c executions = record { accepted = false; book = c; executions = executions }

  pub absent_of_resting :
      {c : Clob} {v : View} (order_id : ℕ)
      → Represents max_orders hash cap c v
      → (¬ IsResting c v order_id)
      → lookup max_orders hash cap c order_id ≡ none
  unfolding Index.contains
  absent_of_resting {c} order_id r away =
      elim (Option-cases (lookup max_orders hash cap c order_id)) [
        | inl missing ↦ missing
        | inr (i, present) ↦
            absurd (
              away
                ((contains-IsResting max_orders hash cap order_id r).0 (ground (arith, present))))
      ]

  -- A submission of no quantity, at a price out of range or of an id that rests in a well-formed
  -- book is refused; nothing is traded and nothing changes.
  pub submit_rejects :
      {c : Clob} {v : View} (order_id : ℕ) (side : Side) (price qty : ℕ) (executions : S)
      → Represents max_orders hash cap c v
      → (qty ≡ 0) ⊎ (¬ InRange c price) ⊎ IsResting c v order_id
      → submit_limit_order max_orders hash sink c order_id side price qty executions
        ≡ some (record { accepted = false; book = c; executions = executions })
  unfolding submit_limit_order
  submit_rejects {c} order_id side price qty executions r (inl e) = ground (arith, e)
  submit_rejects {c} order_id side price qty executions r (inr (inl out)) =
      let e = valid_price-false c price out in
      let t : qty == 0 || not (valid_price c price) ≡ true = ground (arith, e) in rw t
  submit_rejects {c} order_id side price qty executions r (inr (inr resting)) =
      let there = (contains-IsResting max_orders hash cap order_id r).1 resting in
      elim (Bool-cases (qty == 0 || not (valid_price c price))) [
        | inl bad ↦ rw bad
        | inr fine ↦ rw (fine, there)
      ]

  module _ {c : Clob} {v : View} (order_id : ℕ) (side : Side) (price qty : ℕ) (executions : S)
      (id : IsId order_id) (r : Represents max_orders hash cap c v) (range : InRange c price)
      (pos : 0 < qty) (word : qty < 2 ^ 64) (away : ¬ IsResting c v order_id) where
    abbrev start : Matching S
    start = record { book = c; incoming_qty = qty; executions = executions }

    absent_test : Index.contains (2 * max_orders) hash c.order_lookup order_id ≡ false
    unfolding Index.contains
    absent_test = let absent = absent_of_resting order_id r away in ground (arith, absent)

    passes :
        (m : Matching S)
        → match_order max_orders hash sink (max_orders + 1) order_id side price start ≡ some m
        → submit_limit_order max_orders hash sink c order_id side price qty executions ≡ (
            if m.incoming_qty == 0
            then some (record { accepted = true; book = m.book; executions = m.executions })
            else (let (accepted, book) =
                  add_order max_orders hash m.book order_id side price m.incoming_qty in
                some (record { accepted = accepted; book = book; executions = m.executions })))
    unfolding submit_limit_order
    passes m run =
        let fine : qty == 0 || not (valid_price c price) ≡ false =
          (let e = valid_price-true c price range in ground (arith, e, pos)) in
        rw (fine, absent_test, run)

    -- What is left rests: the id is still new, and a slot is free.
    rest_left :
        (m : Matching S)
        → match_order max_orders hash sink (max_orders + 1) order_id side price start ≡ some m
        → (d : Matched max_orders hash cap sink side price order_id v start m) → 0 < m.incoming_qty
        → m.book.pool.top ≢ 0
        → (o : Outcome S) × (submit_limit_order max_orders hash sink c order_id side price qty
              executions
            ≡ some o)
          × Submitted c v order_id side price qty executions o
    rest_left m run d some_left some_free =
        let still : ¬ IsResting m.book d.view order_id = λ w. away (record {
          side = w.side;
          price = w.price;
          price_in =
              (omega (arith, d.min_price, w.price_in), omega (arith, d.max_price, w.price_in));
          waits = Trades-HasId d.trades order_id w.side w.price w.waits;
        }) in
        let (c', added, range', stored) =
          add_order_accepts max_orders hash cap order_id side price m.incoming_qty id d.stored
            (omega (arith, d.min_price, range.0), omega (arith, d.max_price, range.1)) some_left
            (omega (arith, Trades-left d.trades, word)) (absent_of_resting order_id d.stored still)
            some_free in
        let nz : (m.incoming_qty == 0) ≡ false = ground (arith, some_left) in
        let added₀ = ap (λ (p : Bool × Clob). p.0) added in
        let added₁ = ap (λ (p : Bool × Clob). p.1) added in
        (
          record { accepted = true; book = c'; executions = m.executions },
          passes m run ∙ rw (nz, added₀, added₁),
          rested d.view d.reports m.incoming_qty some_left d.trades refl
              (range'.0 ∙ d.min_price, range'.1 ∙ d.max_price) stored d.reported,
        )

    refuse_all :
        (m : Matching S)
        → match_order max_orders hash sink (max_orders + 1) order_id side price start ≡ some m
        → (d : Matched max_orders hash cap sink side price order_id v start m) → m ≡ start
        → d.view ≡ v
        → c.pool.top ≡ 0
        → (o : Outcome S) × (submit_limit_order max_orders hash sink c order_id side price qty
              executions
            ≡ some o)
          × Submitted c v order_id side price qty executions o
    refuse_all m run d same seen used_up =
        let refused =
          add_order_refuses max_orders hash cap order_id side price qty r
            (inr (inr (inl used_up))) in
        let refused₀ = ap (λ (p : Bool × Clob). p.0) refused in
        let refused₁ = ap (λ (p : Bool × Clob). p.1) refused in
        let nz : (qty == 0) ≡ false = ground (arith, pos) in
        (
          refusal c executions,
          passes start (run ∙ ap (λ (x : Matching S). some x) same) ∙ rw (nz, refused₀, refused₁),
          no_slot used_up (uncrossed (Trades-end d.trades)) refl,
        )
      where
        uncrossed :
            (m.incoming_qty ≡ 0) ⊎ Uncrossed c.min_price c.max_price side price d.view
            → Uncrossed c.min_price c.max_price side price v
        uncrossed (inl e) = absurd (omega (arith, e, ap (λ (x : Matching S). x.incoming_qty) same))
        uncrossed (inr u) = subst (Uncrossed c.min_price c.max_price side price) seen u

    -- A submission of a positive 64-bit quantity, at a price in range, with an id other than 0
    -- that does not rest, to a well-formed book, returns. It trades with the best prices of the
    -- other side first and the oldest order first at each, while its limit allows; it is accepted
    -- and filled, or accepted and what is left waits behind the orders at its side and price; or,
    -- where nothing can trade and no slot is free, it is refused. The executions are the trades in
    -- order, and the new book is well formed.
    pub submit_limit_order_lem :
        (o : Outcome S) × (submit_limit_order max_orders hash sink c order_id side price qty
            executions
          ≡ some o)
        × Submitted c v order_id side price qty executions o
    submit_limit_order_lem =
        let (m, run, d) =
          match_order_lem max_orders hash cap sink {m = start} order_id side price r word in
        elim (eq-cases m.incoming_qty 0) [
          | inl spent ↦ (
            record { accepted = true; book = m.book; executions = m.executions },
            passes m run ∙ (let z : (m.incoming_qty == 0) ≡ true = ground (arith, spent) in rw z),
            filled d.view d.reports
                (subst
                  (λ (n : ℕ).
                    Trades c.min_price c.max_price side price order_id v qty d.reports d.view n)
                  spent d.trades)
                refl (d.min_price, d.max_price) d.stored d.reported,
          )
          | inr some_left ↦ by_slot m run d (omega (arith, some_left)) d.freed
        ]
      where
        by_slot :
            (m : Matching S)
            → match_order max_orders hash sink (max_orders + 1) order_id side price start ≡ some m
            → (d : Matched max_orders hash cap sink side price order_id v start m)
            → 0 < m.incoming_qty
            → ((m ≡ start) × (d.view ≡ v)) ⊎ (0 < m.incoming_qty → c.pool.top < m.book.pool.top)
            → (o : Outcome S) × (submit_limit_order max_orders hash sink c order_id side price qty
                  executions
                ≡ some o)
              × Submitted c v order_id side price qty executions o
        by_slot m run d some_left (inr freed) =
            rest_left m run d some_left
              (let f = freed some_left in λ z. absurd (omega (arith, f, z)))
        by_slot m run d some_left (inl (same, seen)) = elim (eq-cases c.pool.top 0) [
          | inl used_up ↦ refuse_all m run d same seen used_up
          | inr some_free ↦
              rest_left m run d some_left
                (λ z. some_free (sym (ap (λ (x : Matching S). x.book.pool.top) same) ∙ z))
        ]
