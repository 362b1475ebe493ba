-- ===== src/Clob/Session.antt =====
-- What every submission to a book of src/fixed_clob.hpp keeps: it returns, it is all or nothing where
-- it is refused, and the two sides stay apart.
use mathlib.Core.Path.{subst, subst₂}
use lowlat_matching_engine.Common.{
  ℕ, ◌*◌, ◌^◌, ◌<◌, ◌≡◌, refl, sym, ◌⊎◌, inl, inr, arith, Option, some, List, [], ◌∷◌, ◌++◌,
  eq-cases, true, false, Bool-cases, if◌then◌else◌, ◌+◌,
}
use lowlat_matching_engine.Types.{Side, Execution}
use lowlat_matching_engine.Index
use lowlat_matching_engine.Index.{IsId}
use lowlat_matching_engine.Index.Probing.{IsCapacity}
use lowlat_matching_engine.Sink.{Sink, emit}
use lowlat_matching_engine.Clob.{Clob, Outcome, submit_limit_order}
use lowlat_matching_engine.Clob.Invariant.{requeue, InRange, SameRange}
use lowlat_matching_engine.Clob.View.{View, Represents}
use lowlat_matching_engine.Clob.Cancel.{IsResting, contains-IsResting}
use lowlat_matching_engine.Clob.Trades.{Uncrossed, traded, Trades-end}
use lowlat_matching_engine.Clob.Conserve.{resting_quantity, filled-conserves, rested-conserves}
use lowlat_matching_engine.Clob.Submit.{
  inrange_cases, Submitted, filled, rested, no_slot, submit_rejects, submit_limit_order_lem,
}
use lowlat_matching_engine.Clob.Apart.{
  IsUncrossed, AreFair, Trades-AreFair, Trades-IsUncrossed, rest-IsUncrossed,
}

module _ (max_orders : ℕ) (hash : ℕ → ℕ) (cap : IsCapacity (2 * max_orders)) {S : Type 0}
    (sink : Sink S) where
  -- What a submission did: it was refused, or it traded and left nothing or rests.
  data Ended (c : Clob) (v : View) (order_id : ℕ) (side : Side) (price qty : ℕ) (executions : S)
      (o : Outcome S) : Type 0 where
    refused :
        o ≡ record { accepted = false; book = c; executions = executions }
        → Ended c v order_id side price qty executions o
    carried :
        InRange c price
        → Submitted max_orders hash cap sink c v order_id side price qty executions o
        → Ended c v order_id side price qty executions o

  module _ {c : Clob} {v : View} (order_id : ℕ) (side : Side) (price qty : ℕ) (executions : S)
      (id : IsId order_id) (r : Represents max_orders hash cap c v) (word : qty < 2 ^ 64) where
    abbrev run : Option (Outcome S)
    run = submit_limit_order max_orders hash sink c order_id side price qty executions

    ended : (o : Outcome S) × (run ≡ some o) × Ended c v order_id side price qty executions o
    ended = elim (eq-cases qty 0) [
      | inl z ↦ refuse (inl z)
      | inr pos ↦ elim (inrange_cases c price) [
        | inr out ↦ refuse (inr (inl out))
        | inl range ↦
            elim (Bool-cases (Index.contains (2 * max_orders) hash c.order_lookup order_id)) [
              | inl there ↦
                  refuse (inr (inr ((contains-IsResting max_orders hash cap order_id r).0 there)))
              | inr missing ↦
                  let away : ¬ IsResting c v order_id = λ w.
                    let there = (contains-IsResting max_orders hash cap order_id r).1 w in
                    ground (arith, missing, there) in
                  let (o, is, did) =
                    submit_limit_order_lem max_orders hash cap sink order_id side price qty
                      executions id r range (omega (arith, pos)) word away in
                  (o, is, carried range did)
            ]
      ]
    ]
      where
        refuse :
            (qty ≡ 0) ⊎ (¬ InRange c price) ⊎ IsResting c v order_id
            → (o : Outcome S) × (run ≡ some o) × Ended c v order_id side price qty executions o
        refuse why = (
          _,
          submit_rejects max_orders hash cap sink order_id side price qty executions r why,
          refused refl,
        )

    -- Every submission of a 64-bit quantity with an id other than 0 to a well-formed book returns,
    -- and where it is refused the book and the executions are exactly as they were.
    pub submit_atomic :
        (o : Outcome S) × (submit_limit_order max_orders hash sink c order_id side price qty
            executions
          ≡ some o)
        × (o.accepted ≡ false → o ≡ record { accepted = false; book = c; executions = executions })
    submit_atomic = let (o, is, e) = ended in (o, is, unchanged o e)
      where
        done :
            (o : Outcome S)
            → Submitted max_orders hash cap sink c v order_id side price qty executions o
            → o.accepted ≡ false
            → o ≡ record { accepted = false; book = c; executions = executions }
        done o (filled v' es t yes_it same s x) bad = absurd (ground (arith, yes_it, bad))
        done o (rested v' es left pos t yes_it same s x) bad = absurd (ground (arith, yes_it, bad))
        done o (no_slot z u is) bad = is

        unchanged :
            (o : Outcome S)
            → Ended c v order_id side price qty executions o
            → o.accepted ≡ false
            → o ≡ record { accepted = false; book = c; executions = executions }
        unchanged o (refused is) bad = is
        unchanged o (carried i s) bad = done o s bad

    -- Every submission of a 64-bit quantity with an id other than 0 to a well-formed book in which
    -- every bid is below every ask returns, and the book is again well formed with every bid below
    -- every ask.
    pub submit-IsUncrossed :
        IsUncrossed c.min_price c.max_price v
        → (o : Outcome S) × (submit_limit_order max_orders hash sink c order_id side price qty
              executions
            ≡ some o)
          × (v' : View) × Represents max_orders hash cap o.book v'
          × IsUncrossed o.book.min_price o.book.max_price v'
    submit-IsUncrossed u = let (o, is, e) = ended in let (w, s, x) = kept o e in (o, is, w, s, x)
      where
        Goal : Outcome S → Type 0
        Goal o =
            (v' : View) × Represents max_orders hash cap o.book v'
            × IsUncrossed o.book.min_price o.book.max_price v'

        same :
            (o : Outcome S)
            → o ≡ record { accepted = false; book = c; executions = executions }
            → Goal o
        same o is = subst Goal (sym is) (v, r, u)

        ranged :
            (o : Outcome S) (v' : View)
            → SameRange c o.book
            → IsUncrossed c.min_price c.max_price v'
            → IsUncrossed o.book.min_price o.book.max_price v'
        ranged o v' range w =
            subst₂ (λ (lo hi : ℕ). IsUncrossed lo hi v') (sym range.0) (sym range.1) w

        done :
            (o : Outcome S)
            → Submitted max_orders hash cap sink c v order_id side price qty executions o
            → Goal o
        done o (filled v' es t yes_it range s x) =
            (v', s, ranged o v' range (Trades-IsUncrossed t u))
        done o (rested v' es left pos t yes_it range s x) = (
          _,
          s,
          ranged o
              (requeue v' side price
                (v' side price ++ record { order_id = order_id; qty = left } ∷ []))
              range
              (rest-IsUncrossed c.min_price c.max_price side price v' _ (apart (Trades-end t))
                (Trades-IsUncrossed t u)),
        )
          where
            apart :
                (left ≡ 0) ⊎ Uncrossed c.min_price c.max_price side price v'
                → Uncrossed c.min_price c.max_price side price v'
            apart (inl z) = absurd (omega (arith, z, pos))
            apart (inr w) = w
        done o (no_slot z w is) = same o is

        kept : (o : Outcome S) → Ended c v order_id side price qty executions o → Goal o
        kept o (refused is) = same o is
        kept o (carried i s) = done o s

    -- Every submission of a 64-bit quantity with an id other than 0 to a well-formed book returns
    -- and leaves a well-formed book; it only appends to the executions, those it appends are of
    -- this order and at prices its limit accepts, and quantity is conserved: what rests afterwards
    -- and twice what was traded is what rested before and, where the order is accepted, its
    -- quantity.
    pub submit_reports :
        (o : Outcome S) × (submit_limit_order max_orders hash sink c order_id side price qty
            executions
          ≡ some o)
        × (es : List Execution) × (o.executions ≡ emit sink executions es)
        × AreFair side price order_id es
        × (v' : View) × Represents max_orders hash cap o.book v'
        × (resting_quantity o.book v' + 2 * traded es
            ≡ resting_quantity c v + (if o.accepted then qty else 0))
    unfolding emit
    submit_reports =
        let (o, is, e) = ended in
        let (es, x, f, v', s, t) = reports o e in (o, is, es, x, f, v', s, t)
      where
        Goal : Outcome S → Type 0
        Goal o =
            (es : List Execution) × (o.executions ≡ emit sink executions es)
            × AreFair side price order_id es
            × (v' : View) × Represents max_orders hash cap o.book v'
            × (resting_quantity o.book v' + 2 * traded es
                ≡ resting_quantity c v + (if o.accepted then qty else 0))

        none_made :
            (o : Outcome S)
            → o ≡ record { accepted = false; book = c; executions = executions }
            → Goal o
        none_made o is = subst Goal (sym is) ([], refl, tt, v, r, omega arith)

        accepted_qty : (o : Outcome S) → o.accepted ≡ true → (if o.accepted then qty else 0) ≡ qty
        accepted_qty o yes_it = rw yes_it

        done :
            (o : Outcome S)
            → InRange c price
            → Submitted max_orders hash cap sink c v order_id side price qty executions o
            → Goal o
        done o i (filled v' es t yes_it range s x) =
            let kept = filled-conserves c o.book range t refl in
            (es, x, Trades-AreFair t, v', s, omega (arith, kept, accepted_qty o yes_it))
        done o i (rested v' es left pos t yes_it range s x) =
            let kept = rested-conserves c o.book range t i in
            (es, x, Trades-AreFair t, _, s, omega (arith, kept, accepted_qty o yes_it))
        done o i (no_slot z w is) = none_made o is

        reports : (o : Outcome S) → Ended c v order_id side price qty executions o → Goal o
        reports o (refused is) = none_made o is
        reports o (carried i s) = done o i s
