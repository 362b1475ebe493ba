-- ===== src/Clob/Conserve.antt =====
-- The matching of src/fixed_clob.hpp conserves quantity: what is traded leaves the incoming order and the
-- orders that rest alike.
use lowlat_matching_engine.Common.{ℕ, ◌+◌, ◌*◌, ◌≡◌, ap₂, arith, List, [], ◌∷◌, ◌++◌}
use lowlat_matching_engine.Types.{Side, Execution}
use lowlat_matching_engine.Clob.{Clob, opposite}
use lowlat_matching_engine.Clob.Invariant.{InRange, SameRange, requeue}
use lowlat_matching_engine.Clob.View.{Entry, View, consume, quantities}
use lowlat_matching_engine.Clob.Sums.{view_sum, view_sum-requeue}
use lowlat_matching_engine.Clob.Trades.{
  Trades, stop, take, traded, traded-append, consume-traded, Trades-traded,
}

-- The quantity that rests in a book, at all its prices on both sides.
abbrev pub resting_quantity : Clob → View → ℕ
resting_quantity c v = view_sum quantities c.min_price c.max_price v

module _ {lo hi : ℕ} {side : Side} {limit id : ℕ} where
  Trades-quantities :
      {v v' : View} {n n' : ℕ} {es : List Execution}
      → Trades lo hi side limit id v n es v' n'
      → view_sum quantities lo hi v' + traded es ≡ view_sum quantities lo hi v
  Trades-quantities (stop h) = omega arith
  Trades-quantities {v} {n = n} (take {es = es} b pos top ok rest) =
      let f = consume id b n (v (opposite side) b) in
      omega (
        arith,
        Trades-quantities rest,
        view_sum-requeue quantities lo hi v (opposite side) b f.queue top.low top.high,
        (consume-traded id b n (v (opposite side) b)).1,
        traded-append f.trades es,
      )

quantities-snoc : (q : List Entry) (e : Entry) → quantities (q ++ e ∷ []) ≡ quantities q + e.qty
quantities-snoc [] e = omega arith
quantities-snoc (x ∷ q) e = omega (arith, quantities-snoc q e)

module _ (c c' : Clob) {side : Side} {price id : ℕ} {v v' : View} {n left : ℕ} {es : List Execution}
    (same : SameRange c c') (t : Trades c.min_price c.max_price side price id v n es v' left) where
  -- Nothing of the order is left.
  pub filled-conserves :
      left ≡ 0 → resting_quantity c' v' + 2 * traded es ≡ resting_quantity c v + n
  filled-conserves none_left =
      let ranged : resting_quantity c' v' ≡ view_sum quantities c.min_price c.max_price v' =
        ap₂ (λ (lo hi : ℕ). view_sum quantities lo hi v') same.0 same.1 in
      omega (arith, ranged, Trades-quantities t, Trades-traded t, none_left)

  -- What is left of it rests.
  pub rested-conserves :
      InRange c price
      → resting_quantity c'
            (requeue v' side price (v' side price ++ record { order_id = id; qty = left } ∷ []))
          + 2 * traded es
        ≡ resting_quantity c v + n
  rested-conserves range =
      let new : List Entry = v' side price ++ record { order_id = id; qty = left } ∷ [] in
      let ranged : resting_quantity c' (requeue v' side price new)
          ≡ view_sum quantities c.min_price c.max_price (requeue v' side price new) =
        ap₂ (λ (lo hi : ℕ). view_sum quantities lo hi (requeue v' side price new)) same.0 same.1 in
      let snoc : quantities new ≡ quantities (v' side price) + left =
        quantities-snoc (v' side price) (record { order_id = id; qty = left }) in
      omega (
        arith,
        ranged,
        view_sum-requeue quantities c.min_price c.max_price v' side price new range.0 range.1,
        snoc,
        Trades-quantities t,
        Trades-traded t,
      )
