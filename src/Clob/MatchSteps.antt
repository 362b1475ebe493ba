-- ===== src/Clob/MatchSteps.antt =====
-- One round of `match_at_level` of src/fixed_clob.hpp on each of its branches.
use mathlib.Core.Path.{subst}
use lowlat_matching_engine.Common.{ℕ, suc, ◌≤◌, ◌<◌, ◌≡◌, sym, ◌⊎◌, inl, inr, arith, some, sub64}
use lowlat_matching_engine.Types.{Side}
use lowlat_matching_engine.Sink.{Sink}
use lowlat_matching_engine.Clob.{
  level, order_at, Matching, match_at_level, reduce_order_quantity, remove_order_by_index,
}
use lowlat_matching_engine.Clob.View.{trade}

module _ (max_orders : ℕ) (hash : ℕ → ℕ) {S : Type 0} (sink : Sink S) where
  pub step_stop :
      (fuel : ℕ) (side : Side) (price id : ℕ) (m : Matching S)
      → (m.incoming_qty ≡ 0) ⊎ ((level m.book side price).order_count ≡ 0)
      → match_at_level max_orders hash sink (suc fuel) side price id m ≡ some m
  unfolding match_at_level
  step_stop fuel side price id m (inl e) = ground (arith, e)
  step_stop fuel side price id m (inr e) = ground (arith, e)

  pub step_part :
      (fuel : ℕ) (side : Side) (price id idx : ℕ) (m : Matching S)
      → 0 < m.incoming_qty
      → 0 < (level m.book side price).order_count
      → (level m.book side price).head_idx ≡ idx
      → m.incoming_qty < (order_at m.book idx).qty
      → match_at_level max_orders hash sink (suc fuel) side price id m
        ≡ some (record {
          book = reduce_order_quantity m.book idx m.incoming_qty side price;
          incoming_qty = 0;
          executions =
              sink.emplace_back m.executions (
                trade id (order_at m.book idx).order_id (order_at m.book idx).price m.incoming_qty);
        })
  unfolding match_at_level
  step_part fuel side price id idx m pos some_orders head less = rw (← head) at_head
    where
      less' : m.incoming_qty < (order_at m.book (level m.book side price).head_idx).qty
      less' = subst (λ (i : ℕ). m.incoming_qty < (order_at m.book i).qty) (sym head) less

      at_head :
          match_at_level max_orders hash sink (suc fuel) side price id m
          ≡ some (record {
            book =
                reduce_order_quantity m.book
                  (level m.book side price).head_idx
                  m.incoming_qty
                  side
                  price;
            incoming_qty = 0;
            executions = sink.emplace_back m.executions (
                trade id
                  (order_at m.book (level m.book side price).head_idx).order_id
                  (order_at m.book (level m.book side price).head_idx).price
                  m.incoming_qty);
          })
      at_head = ground (arith, less')

  pub step_whole :
      (fuel : ℕ) (side : Side) (price id idx : ℕ) (m : Matching S)
      → 0 < m.incoming_qty
      → 0 < (level m.book side price).order_count
      → (level m.book side price).head_idx ≡ idx
      → (order_at m.book idx).qty ≤ m.incoming_qty
      → match_at_level max_orders hash sink (suc fuel) side price id m
        ≡ match_at_level max_orders hash sink fuel side price id (record {
          book = remove_order_by_index max_orders hash m.book idx;
          incoming_qty = sub64 m.incoming_qty (order_at m.book idx).qty;
          executions = sink.emplace_back m.executions (
              trade id
                (order_at m.book idx).order_id
                (order_at m.book idx).price
                (order_at m.book idx).qty);
        })
  unfolding match_at_level
  step_whole fuel side price id idx m pos some_orders head more =
      subst
        (λ (i : ℕ).
          match_at_level max_orders hash sink (suc fuel) side price id m
          ≡ match_at_level max_orders hash sink fuel side price id (record {
            book = remove_order_by_index max_orders hash m.book i;
            incoming_qty = sub64 m.incoming_qty (order_at m.book i).qty;
            executions = sink.emplace_back m.executions (
                trade id (order_at m.book i).order_id (order_at m.book i).price
                  (order_at m.book i).qty);
          }))
        head
        (let more' : (order_at m.book (level m.book side price).head_idx).qty ≤ m.incoming_qty =
            subst (λ (i : ℕ). (order_at m.book i).qty ≤ m.incoming_qty) (sym head) more in
          ground (arith, more'))
  -- The front of the queue at a price.
