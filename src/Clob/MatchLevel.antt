-- ===== src/Clob/MatchLevel.antt =====
-- `match_at_level` of src/fixed_clob.hpp: it trades with the queue of a level as `consume` does.
use lowlat_matching_engine.Common.{
  ℕ, zero, suc, ◌*◌, ◌^◌, ◌≤◌, ◌<◌, ◌≡◌, refl, sym, ap, ◌∙◌, inl, inr, arith, some, List, [], ◌∷◌,
  length, eq-cases, sub64, lt-cases,
}
use lowlat_matching_engine.Types.{Side}
use lowlat_matching_engine.Index.Probing.{IsCapacity}
use lowlat_matching_engine.Sink.{Sink}
use lowlat_matching_engine.Clob.{level, order_at, Matching, match_at_level, remove_order_by_index}
use lowlat_matching_engine.Clob.Invariant.{requeue, InRange, requeue_here}
use lowlat_matching_engine.Clob.View.{Entry, View, consume, trade, entries, Represents}
use lowlat_matching_engine.Clob.Consume.{consume-zero}
use lowlat_matching_engine.Clob.MatchSteps.{step_stop, step_part, step_whole}
use lowlat_matching_engine.Clob.LevelSteps.{
  LevelMatched, IsQueue-at, shown, matched_stop, matched_part, front-Removed, stored_after_front,
  matched_whole,
}

module _ (max_orders : ℕ) (hash : ℕ → ℕ) (cap : IsCapacity (2 * max_orders)) {S : Type 0}
    (sink : Sink S) where
  consume-nil :
      (id price qty : ℕ) → consume id price qty [] ≡ record { left = qty; queue = []; trades = [] }
  unfolding consume
  consume-nil id price qty = refl

  -- On a well-formed book, a price in range and a 64-bit quantity, the loop over a level ends with
  -- fuel for one round more than orders wait there, and has traded with its queue, oldest order
  -- first, as `consume` does: the quantity left, the queue left and the executions are those of
  -- `consume`, each order filled gives back its slot, and the book is well formed.
  pub match_at_level_lem :
      (fuel : ℕ) {m : Matching S} {v : View} (side : Side) (price id : ℕ)
      → Represents max_orders hash cap m.book v
      → InRange m.book price
      → m.incoming_qty < 2 ^ 64
      → length (v side price) < fuel
      → (m' : Matching S) × (match_at_level max_orders hash sink fuel side price id m ≡ some m')
        × LevelMatched max_orders hash cap sink side price id v m m'
  match_at_level_lem zero side price id r range word few = absurd (omega arith)
  match_at_level_lem (suc fuel) {m} {v} side price id r range word few =
      by_queue (r.queues side price) refl (λ idx q front pos more.
        let gone = front-Removed max_orders hash cap sink m r side price id range idx q front in
        match_at_level_lem fuel side price id
          (stored_after_front max_orders hash cap sink m r side price id range idx q front)
          (omega (arith, gone.min_price, range.0), omega (arith, gone.max_price, range.1))
          (omega (arith, word))
          (omega (
            arith,
            few,
            ap (length {0}) (requeue_here v side price (entries m.book q)),
            ap (length {0})
                (shown max_orders hash cap sink m r side price id range (idx ∷ q) front),
          )))
    where
      after : ℕ → Matching S
      after idx = record {
        book = remove_order_by_index max_orders hash m.book idx;
        incoming_qty = sub64 m.incoming_qty (order_at m.book idx).qty;
        executions = sink.emplace_back m.executions (
            trade id (order_at m.book idx).order_id (order_at m.book idx).price
              (order_at m.book idx).qty);
      }

      by_queue :
          (q : List ℕ)
          → r.queues side price ≡ q
          → ((idx : ℕ) (q : List ℕ)
              → r.queues side price ≡ idx ∷ q
              → 0 < m.incoming_qty
              → (order_at m.book idx).qty ≤ m.incoming_qty
              → (m' : Matching S) × (match_at_level max_orders hash sink fuel side price id
                    (after idx)
                  ≡ some m')
                × LevelMatched max_orders hash cap sink side price id
                    (requeue v side price (entries m.book q))
                    (after idx)
                    m')
          → (m' : Matching S) × (match_at_level max_orders hash sink (suc fuel) side price id m
              ≡ some m')
            × LevelMatched max_orders hash cap sink side price id v m m'
      by_queue [] e loop =
          let own = IsQueue-at max_orders hash cap sink m r side price id range [] e in
          (
            m,
            step_stop max_orders hash sink fuel side price id m (inr own.count),
            matched_stop max_orders hash cap sink m r side price id range fuel (
                ap (consume id price m.incoming_qty)
                  (shown max_orders hash cap sink m r side price id range [] e)
                ∙ consume-nil id price m.incoming_qty
                ∙ ap (λ (z : List Entry). record { left = m.incoming_qty; queue = z; trades = [] })
                    (sym (shown max_orders hash cap sink m r side price id range [] e))),
          )
      by_queue (idx ∷ q) e loop =
          let own = IsQueue-at max_orders hash cap sink m r side price id range (idx ∷ q) e in
          let filled : 0 < (level m.book side price).order_count = omega (arith, own.count) in
          elim (eq-cases m.incoming_qty 0) [
            | inl spent ↦ (
              m,
              step_stop max_orders hash sink fuel side price id m (inl spent),
              matched_stop max_orders hash cap sink m r side price id range fuel (
                  ap (λ (n : ℕ). consume id price n (v side price)) spent
                  ∙ consume-zero id price (v side price)
                  ∙ ap (λ (n : ℕ). record { left = n; queue = v side price; trades = [] })
                      (sym spent)),
            )
            | inr some_left ↦
                let pos : 0 < m.incoming_qty = omega (arith, some_left) in
                elim (lt-cases m.incoming_qty (order_at m.book idx).qty) [
                  | inl less ↦ (
                    _,
                    step_part max_orders hash sink fuel side price id idx m pos filled own.head
                        less,
                    matched_part max_orders hash cap sink m r side price id range idx q e pos less,
                  )
                  | inr more ↦
                      let (m', run, matched) = loop idx q e pos more in
                      (
                        m',
                        step_whole max_orders hash sink fuel side price id idx m pos filled own.head
                              more
                            ∙ run,
                        matched_whole max_orders hash cap sink m r side price id range idx q m' e
                            pos word more matched,
                      )
                ]
          ]
