-- ===== src/Clob/Crossing.antt =====
-- What the best prices of src/fixed_clob.hpp say of the abstract book.
use mathlib.Core.Path.{subst}
use lowlat_matching_engine.Common.{
  ℕ, ◌*◌, ◌≤◌, ◌<◌, ◌≡◌, ◌≢◌, refl, sym, ap, ◌∙◌, inl, inr, arith, Option, some, List, [], ◌∷◌,
  length, true, false, Option-cases,
}
use lowlat_matching_engine.Types.{Side, buy, sell}
use lowlat_matching_engine.Index
use lowlat_matching_engine.Index.Probing.{IsCapacity, count_occupied_pos}
use lowlat_matching_engine.Index.Search
use lowlat_matching_engine.Clob.{Clob, order_at, best, opposite, crosses}
use lowlat_matching_engine.Clob.Queues.{Elem, pigeonhole}
use lowlat_matching_engine.Clob.Invariant.{Queues, InRange, IsBest, IsBook}
use lowlat_matching_engine.Clob.View.{Entry, View, entries, Represents, length-entries}
use lowlat_matching_engine.Clob.Trades.{Acceptable, Uncrossed, IsTop}

entries-nil : (c : Clob) (q : List ℕ) → q ≢ [] → entries c q ≢ []
entries-nil c [] h e = h refl
entries-nil c (x ∷ q) h e = cc

pub nonempty_length : (q : List Entry) → q ≢ [] → 0 < length q
nonempty_length [] h = absurd (h refl)
nonempty_length (x ∷ q) h = omega arith

-- What `crosses` says of the best price of the other side.
pub crosses-true :
    (c : Clob) (side : Side) (limit : ℕ)
    → crosses c side limit ≡ true
    → (b : ℕ) × (best c (opposite side) ≡ some b) × Acceptable side limit b
unfolding crosses
crosses-true c buy limit h = elim (Option-cases c.best_ask) [
  | inl unset ↦ ground (arith, unset, h)
  | inr (b, set) ↦ (b, set, ground (arith, set, h))
]
crosses-true c sell limit h = elim (Option-cases c.best_bid) [
  | inl unset ↦ ground (arith, unset, h)
  | inr (b, set) ↦ (b, set, ground (arith, set, h))
]

module _ (max_orders : ℕ) (hash : ℕ → ℕ) (cap : IsCapacity (2 * max_orders)) where
  pub best_is :
      (c : Clob) (b : Queues) (s : Side)
      → IsBook max_orders hash cap c b
      → IsBest c.min_price c.max_price s (b s) (best c s)
  best_is c b buy v = v.bids
  best_is c b sell v = v.asks

  module _ {c : Clob} {v : View} (r : Represents max_orders hash cap c v) where
    pub IsTop-of_best : (s : Side) (b : ℕ) → best c s ≡ some b → IsTop c.min_price c.max_price s v b
    IsTop-of_best s b e =
        let t =
          subst (λ (x : Option ℕ). IsBest c.min_price c.max_price s (r.queues s) x) e
            (best_is c r.queues s r.book) in
        record {
          low = t.0;
          high = t.1;
          filled = λ z. entries-nil c (r.queues s b) t.2 (sym (r.shows s b (t.0, t.1)) ∙ z);
          best = λ p l h better. r.shows s p (l, h) ∙ ap (entries c) (t.3 p l h better);
        }

    pub Uncrossed-of_crosses :
        (side : Side) (limit : ℕ)
        → crosses c side limit ≡ false
        → Uncrossed c.min_price c.max_price side limit v
    unfolding crosses
    Uncrossed-of_crosses buy limit h p l u ok = elim (Option-cases c.best_ask) [
      | inl unset ↦
          let t =
            subst (λ (x : Option ℕ). IsBest c.min_price c.max_price sell (r.queues sell) x) unset
              r.book.asks in
          r.shows sell p (l, u) ∙ ap (entries c) (t p l u)
      | inr (b, set) ↦ (IsTop-of_best sell b set).best p l u (ground (arith, set, h, ok))
    ]
    Uncrossed-of_crosses sell limit h p l u ok = elim (Option-cases c.best_bid) [
      | inl unset ↦
          let t =
            subst (λ (x : Option ℕ). IsBest c.min_price c.max_price buy (r.queues buy) x) unset
              r.book.bids in
          r.shows buy p (l, u) ∙ ap (entries c) (t p l u)
      | inr (b, set) ↦ (IsTop-of_best buy b set).best p l u (ground (arith, set, h, ok))
    ]

    pub queue_small : (s : Side) (p : ℕ) → InRange c p → length (v s p) ≤ max_orders
    queue_small s p i =
        let own = r.book.core.queues s p i in
        omega (
          arith,
          ap (length {0}) (r.shows s p i),
          length-entries c (r.queues s p),
          pigeonhole max_orders (r.queues s p) own.nodup (λ j e. (own.members j e).in_range),
        )

    -- While an order rests, a slot is used.
    pub used_slot : (s : Side) (p : ℕ) → InRange c p → v s p ≢ [] → c.pool.top < max_orders
    used_slot s p i ne = go (r.queues s p) refl
      where
        go : (q : List ℕ) → r.queues s p ≡ q → c.pool.top < max_orders
        go [] e = absurd (ne (r.shows s p i ∙ ap (entries c) e))
        go (x ∷ q) e =
            let m = (r.book.core.queues s p i).members x (subst (Elem x) (sym e) (inl refl)) in
            let (cell, held, _) =
              Index.Search.find-some (2 * max_orders) hash cap c.order_lookup
                (order_at c x).order_id x m.indexed in
            omega (
              arith,
              r.book.core.sized,
              r.book.core.table.counted,
              count_occupied_pos c.order_lookup.states cell (2 * max_orders) held.in_range
                  held.is_occupied,
            )
