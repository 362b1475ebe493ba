-- ===== src/Clob/LevelSteps.antt =====
-- A round of `match_at_level` of src/fixed_clob.hpp.
use mathlib.Core.Path.{subst, subst₂}
use lowlat_matching_engine.Common.{
  ℕ, ◌+◌, ◌-◌, ◌*◌, ◌^◌, ◌≤◌, ◌<◌, ◌≡◌, refl, sym, ap, ap₂, ◌∙◌, inl, arith, List, [], ◌∷◌, length,
  sub64,
}
use lowlat_matching_engine.Types.{Side}
use lowlat_matching_engine.Index.Probing.{IsCapacity}
use lowlat_matching_engine.Sink.{Sink, emit}
use lowlat_matching_engine.Clob.{order_at, Matching, reduce_order_quantity, remove_order_by_index}
use lowlat_matching_engine.Clob.Queues.{Elem}
use lowlat_matching_engine.Clob.Effects.{reduce_effect}
use lowlat_matching_engine.Clob.Invariant.{requeue, InRange, IsQueue, requeue_here}
use lowlat_matching_engine.Clob.Removal.{Removed}
use lowlat_matching_engine.Clob.Removal.Whole.{remove_order_lem}
use lowlat_matching_engine.Clob.View.{
  Entry, View, Filled, withdraw, consume, trade, entry, entries, Represents, Represents_congr,
}
use lowlat_matching_engine.Clob.Cancel.{Represents-removed}
use lowlat_matching_engine.Clob.Reduce.Book.{Represents-reduced}
use lowlat_matching_engine.Clob.Consume.{
  consume-part, consume-whole, requeue_same, requeue_twice, withdraw_front,
}

module _ (max_orders : ℕ) (hash : ℕ → ℕ) (cap : IsCapacity (2 * max_orders)) {S : Type 0}
    (sink : Sink S) where
  -- What trading with the queue at `side` and `price` makes of the state of the matching loops.
  pub record LevelMatched (side : Side) (price id : ℕ) (v : View) (m m' : Matching S) : Type 0 where
    pub stored :
        Represents max_orders hash cap m'.book
          (requeue v side price (consume id price m.incoming_qty (v side price)).queue)
    pub left : m'.incoming_qty ≡ (consume id price m.incoming_qty (v side price)).left
    pub reported :
        m'.executions
        ≡ emit sink m.executions (consume id price m.incoming_qty (v side price)).trades
    pub min_price : m'.book.min_price ≡ m.book.min_price
    pub max_price : m'.book.max_price ≡ m.book.max_price
    pub slots :
        m'.book.pool.top + length (consume id price m.incoming_qty (v side price)).queue
        ≡ m.book.pool.top + length (v side price)

  module _ (m : Matching S) {v : View} (r : Represents max_orders hash cap m.book v) (side : Side)
      (price id : ℕ) (range : InRange m.book price) where
    pub IsQueue-at :
        (q : List ℕ) → r.queues side price ≡ q → IsQueue max_orders hash m.book side price q
    IsQueue-at q e =
        subst (λ (z : List ℕ). IsQueue max_orders hash m.book side price z) e
          (r.book.core.queues side price range)

    pub shown : (q : List ℕ) → r.queues side price ≡ q → v side price ≡ entries m.book q
    shown q e = r.shows side price range ∙ ap (entries m.book) e

    -- Nothing is traded.
    pub matched_stop :
        (fuel : ℕ)
        → consume id price m.incoming_qty (v side price)
          ≡ record { left = m.incoming_qty; queue = v side price; trades = [] }
        → LevelMatched side price id v m m
    unfolding emit
    matched_stop fuel e = record {
      stored =
          subst
            (λ (f : Filled). Represents max_orders hash cap m.book (requeue v side price f.queue))
            (sym e)
            (Represents_congr max_orders hash cap m.book v (requeue v side price (v side price))
              (λ s p _. requeue_same v side price (v side price) refl s p) r);
      left = ap (λ (f : Filled). f.left) (sym e);
      reported = ap (λ (f : Filled). emit sink m.executions f.trades) (sym e);
      min_price = refl;
      max_price = refl;
      slots = ap (λ (f : Filled). m.book.pool.top + length f.queue) e;
    }

    pub matched_part :
        (idx : ℕ) (q : List ℕ)
        → r.queues side price ≡ idx ∷ q
        → 0 < m.incoming_qty
        → m.incoming_qty < (order_at m.book idx).qty
        → LevelMatched side price id v m (record {
          book = reduce_order_quantity m.book idx m.incoming_qty side price;
          incoming_qty = 0;
          executions =
              sink.emplace_back m.executions (
                trade id (order_at m.book idx).order_id (order_at m.book idx).price m.incoming_qty);
        })
    unfolding emit
    matched_part idx q front pos less =
        let eff = reduce_effect m.book side price idx m.incoming_qty in
        let fill =
          ap (consume id price m.incoming_qty) (shown (idx ∷ q) front)
          ∙ consume-part id price m.incoming_qty (entry m.book idx) (entries m.book q) pos less in
        let self = (IsQueue-at (idx ∷ q) front).members idx (inl refl) in
        record {
          stored =
              subst
                (λ (f : Filled).
                  Represents max_orders hash cap
                    (reduce_order_quantity m.book idx m.incoming_qty side price)
                    (requeue v side price f.queue))
                (sym fill)
                (Represents-reduced max_orders hash cap r side price idx q m.incoming_qty _ range
                  front less eff);
          left = ap (λ (f : Filled). f.left) (sym fill);
          reported =
              ap
                (λ (p : ℕ).
                  sink.emplace_back m.executions
                    (trade id (order_at m.book idx).order_id p m.incoming_qty))
                self.price_is
              ∙ ap (λ (f : Filled). emit sink m.executions f.trades) (sym fill);
          min_price = eff.frame.min_price;
          max_price = eff.frame.max_price;
          slots = omega (
            arith,
            eff.frame.top,
            ap (λ (f : Filled). length f.queue) fill,
            ap (length {0}) (shown (idx ∷ q) front),
          );
        }

    -- The book after the whole of the oldest order has traded.
    pub front-Removed :
        (idx : ℕ) (q : List ℕ)
        → r.queues side price ≡ idx ∷ q
        → Removed max_orders hash cap m.book r.queues idx side price
            (remove_order_by_index max_orders hash m.book idx)
    front-Removed idx q front =
        let self = (IsQueue-at (idx ∷ q) front).members idx (inl refl) in
        let waits : Elem idx (r.queues side price) = subst (Elem idx) (sym front) (inl refl) in
        subst₂
          (λ (s : Side) (p : ℕ).
            Removed max_orders hash cap m.book r.queues idx s p
              (remove_order_by_index max_orders hash m.book idx))
          self.side_is self.price_is
          (remove_order_lem max_orders hash cap m.book r.queues idx r.book
            (subst (InRange m.book) (sym self.price_is) range)
            (subst₂ (λ (s : Side) (p : ℕ). Elem idx (r.queues s p)) (sym self.side_is)
              (sym self.price_is) waits))

    pub stored_after_front :
        (idx : ℕ) (q : List ℕ)
        → r.queues side price ≡ idx ∷ q
        → Represents max_orders hash cap
            (remove_order_by_index max_orders hash m.book idx)
            (requeue v side price (entries m.book q))
    stored_after_front idx q front =
        let gone = front-Removed idx q front in
        subst
          (λ (z : List Entry).
            Represents max_orders hash cap (remove_order_by_index max_orders hash m.book idx)
              (requeue v side price z))
          (ap (withdraw (order_at m.book idx).order_id) (shown (idx ∷ q) front)
            ∙ withdraw_front (entry m.book idx) (entries m.book q))
          (Represents-removed max_orders hash cap r range gone)

    -- One whole trade, then the rest of the loop.
    pub matched_whole :
        (idx : ℕ) (q : List ℕ) (m' : Matching S)
        → r.queues side price ≡ idx ∷ q
        → 0 < m.incoming_qty
        → m.incoming_qty < 2 ^ 64
        → (order_at m.book idx).qty ≤ m.incoming_qty
        → LevelMatched side price id
            (requeue v side price (entries m.book q))
            (record {
              book = remove_order_by_index max_orders hash m.book idx;
              incoming_qty = sub64 m.incoming_qty (order_at m.book idx).qty;
              executions = sink.emplace_back m.executions (
                  trade id
                    (order_at m.book idx).order_id
                    (order_at m.book idx).price
                    (order_at m.book idx).qty);
            })
            m'
        → LevelMatched side price id v m m'
    unfolding emit
    matched_whole idx q m' front pos word more rest =
        let gone = front-Removed idx q front in
        let self = (IsQueue-at (idx ∷ q) front).members idx (inl refl) in
        let here = requeue_here v side price (entries m.book q) in
        let left : sub64 m.incoming_qty (order_at m.book idx).qty
            ≡ m.incoming_qty - (order_at m.book idx).qty =
          omega arith in
        let again : consume id price (sub64 m.incoming_qty (order_at m.book idx).qty)
              (requeue v side price (entries m.book q) side price)
            ≡ consume id price (m.incoming_qty - (order_at m.book idx).qty) (entries m.book q) =
          ap₂ (consume id price) left here in
        let fill =
          ap (consume id price m.incoming_qty) (shown (idx ∷ q) front)
          ∙ consume-whole id price m.incoming_qty (entry m.book idx) (entries m.book q) pos more in
        let next =
          consume id price (m.incoming_qty - (order_at m.book idx).qty) (entries m.book q) in
        record {
          stored =
              Represents_congr max_orders hash cap m'.book
                (requeue (requeue v side price (entries m.book q)) side price
                  (consume id price (sub64 m.incoming_qty (order_at m.book idx).qty)
                    (requeue v side price (entries m.book q) side price)).queue)
                (requeue v side price (consume id price m.incoming_qty (v side price)).queue)
                (λ s p _.
                  ap (λ (f : Filled). requeue v side price f.queue s p) fill
                  ∙ requeue_twice v side price (entries m.book q) next.queue s p
                  ∙ ap
                      (λ (f : Filled).
                        requeue (requeue v side price (entries m.book q)) side price f.queue s p)
                      (sym again))
                rest.stored;
          left =
              rest.left
              ∙ ap (λ (f : Filled). f.left) again
              ∙ ap (λ (f : Filled). f.left) (sym fill);
          reported =
              rest.reported
              ∙ ap₂
                  (λ (p : ℕ) (f : Filled).
                    emit sink
                      (sink.emplace_back m.executions
                        (trade id (order_at m.book idx).order_id p (order_at m.book idx).qty))
                      f.trades)
                  self.price_is again
              ∙ ap (λ (f : Filled). emit sink m.executions f.trades) (sym fill);
          min_price = rest.min_price ∙ gone.min_price;
          max_price = rest.max_price ∙ gone.max_price;
          slots = omega (
            arith,
            rest.slots,
            gone.grown,
            ap (λ (f : Filled). length f.queue) fill,
            ap (λ (f : Filled). length f.queue) again,
            ap (length {0}) here,
            ap (length {0}) (shown (idx ∷ q) front),
          );
        }
