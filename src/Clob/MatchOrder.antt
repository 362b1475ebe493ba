-- ===== src/Clob/MatchOrder.antt =====
-- `match_order` of src/fixed_clob.hpp: it ends, and trades with price-time priority.
use mathlib.Core.Path.{subst, subst₂}
use lowlat_matching_engine.Common.{
  ℕ, zero, suc, ◌+◌, ◌*◌, ◌^◌, ◌≤◌, ◌<◌, ◌≡◌, ◌≢◌, refl, sym, ap, ◌∙◌, ◌⊎◌, inl, inr, arith, some,
  List, [], ◌++◌, length, eq-cases, true, false, Bool-cases,
}
use lowlat_matching_engine.Types.{Side, Execution}
use lowlat_matching_engine.Index.Probing.{IsCapacity}
use lowlat_matching_engine.Sink.{Sink, emit, emit-append}
use lowlat_matching_engine.Clob.{best, opposite, crosses, Matching, match_at_level, match_order}
use lowlat_matching_engine.Clob.Invariant.{requeue}
use lowlat_matching_engine.Clob.View.{View, consume, Represents}
use lowlat_matching_engine.Clob.Trades.{
  Acceptable, Uncrossed, IsTop, Trades, stop, take, consume-left, consume-left-le, consume-length,
  Trades-left,
}
use lowlat_matching_engine.Clob.MatchLevel.{match_at_level_lem}
use lowlat_matching_engine.Clob.LevelSteps.{LevelMatched}
use lowlat_matching_engine.Clob.Crossing.{
  nonempty_length, crosses-true, IsTop-of_best, Uncrossed-of_crosses, queue_small, used_slot,
}

module _ (max_orders : ℕ) (hash : ℕ → ℕ) (cap : IsCapacity (2 * max_orders)) where
  module _ {S : Type 0} (sink : Sink S) where
    match_stop :
        (fuel id : ℕ) (side : Side) (limit : ℕ) (m : Matching S)
        → (m.incoming_qty ≡ 0) ⊎ (crosses m.book side limit ≡ false)
        → match_order max_orders hash sink (suc fuel) id side limit m ≡ some m
    unfolding match_order
    match_stop fuel id side limit m (inl e) = ground (arith, e)
    match_stop fuel id side limit m (inr e) = ground (arith, e)

    match_go :
        (fuel id : ℕ) (side : Side) (limit b : ℕ) (m m₁ : Matching S)
        → 0 < m.incoming_qty
        → crosses m.book side limit ≡ true
        → best m.book (opposite side) ≡ some b
        → match_at_level max_orders hash sink (max_orders + 1) (opposite side) b id m ≡ some m₁
        → match_order max_orders hash sink (suc fuel) id side limit m
          ≡ match_order max_orders hash sink fuel id side limit m₁
    unfolding match_order
    match_go fuel id side limit b m m₁ pos x e l = ground (arith, pos, x, e, l)

    -- What matching an incoming order makes of the state of the loops.
    pub record Matched (side : Side) (limit id : ℕ) (v : View) (m m' : Matching S) : Type 0 where
      pub view : View
      pub reports : List Execution
      pub trades :
          Trades m.book.min_price m.book.max_price side limit id v m.incoming_qty reports view
            m'.incoming_qty
      pub stored : Represents max_orders hash cap m'.book view
      pub reported : m'.executions ≡ emit sink m.executions reports
      pub min_price : m'.book.min_price ≡ m.book.min_price
      pub max_price : m'.book.max_price ≡ m.book.max_price
      pub slots : m.book.pool.top ≤ m'.book.pool.top
      pub freed :
          ((m' ≡ m) × (view ≡ v)) ⊎ (0 < m'.incoming_qty → m.book.pool.top < m'.book.pool.top)

    Matched-take :
        {side : Side} {limit id : ℕ} {v : View} (m m₁ m' : Matching S) (b : ℕ)
        → 0 < m.incoming_qty
        → IsTop m.book.min_price m.book.max_price (opposite side) v b
        → Acceptable side limit b
        → LevelMatched max_orders hash cap sink (opposite side) b id v m m₁
        → Matched side limit id
            (requeue v (opposite side) b (consume id b m.incoming_qty (v (opposite side) b)).queue)
            m₁
            m'
        → Matched side limit id v m m'
    Matched-take {side} {limit} {id} {v} m m₁ m' b pos top ok lvl rest =
        let q = v (opposite side) b in
        let f = consume id b m.incoming_qty q in
        record {
          view = rest.view;
          reports = f.trades ++ rest.reports;
          trades = take b pos top ok (
              subst
                (λ (n : ℕ).
                  Trades m.book.min_price m.book.max_price side limit id
                    (requeue v (opposite side) b f.queue) n rest.reports rest.view m'.incoming_qty)
                lvl.left
                (subst₂
                  (λ (lo hi : ℕ).
                    Trades lo hi side limit id (requeue v (opposite side) b f.queue) m₁.incoming_qty
                      rest.reports rest.view m'.incoming_qty)
                  lvl.min_price lvl.max_price rest.trades));
          stored = rest.stored;
          reported =
              rest.reported
              ∙ ap (λ (s : S). emit sink s rest.reports) lvl.reported
              ∙ sym (emit-append sink m.executions f.trades rest.reports);
          min_price = rest.min_price ∙ lvl.min_price;
          max_price = rest.max_price ∙ lvl.max_price;
          slots = omega (arith, rest.slots, lvl.slots, consume-length id b m.incoming_qty q);
          freed = inr (λ some_left.
              let was : 0 < f.left = omega (arith, some_left, Trades-left rest.trades, lvl.left) in
              omega (
                arith,
                rest.slots,
                lvl.slots,
                ap (length {0}) (consume-left id b m.incoming_qty q was),
                nonempty_length q top.filled,
              ));
        }

    -- The matching loop ends with fuel for one round more than orders rest, and what it does is the
    -- matching with price-time priority.
    match_order_loop :
        (fuel : ℕ) {m : Matching S} {v : View} (id : ℕ) (side : Side) (limit : ℕ)
        → Represents max_orders hash cap m.book v
        → m.incoming_qty < 2 ^ 64
        → 0 < fuel
        → (0 < m.incoming_qty → max_orders < fuel + m.book.pool.top)
        → (m' : Matching S) × (match_order max_orders hash sink fuel id side limit m ≡ some m')
          × Matched side limit id v m m'
    unfolding emit
    match_order_loop zero {m} id side limit r word some_fuel enough = absurd (omega arith)
    match_order_loop (suc fuel) {m} {v} id side limit r word some_fuel enough =
        by_test (λ m₁ more few v₁ r₁ word₁.
          match_order_loop fuel {m = m₁} {v = v₁} id side limit r₁ word₁ more few)
      where
        done :
            (m.incoming_qty ≡ 0) ⊎ (crosses m.book side limit ≡ false) → Matched side limit id v m m
        done why = record {
          view = v;
          reports = [];
          trades = stop (why_uncrossed why);
          stored = r;
          reported = refl;
          min_price = refl;
          max_price = refl;
          slots = omega arith;
          freed = inl (refl, refl);
        }
          where
            why_uncrossed :
                (m.incoming_qty ≡ 0) ⊎ (crosses m.book side limit ≡ false)
                → (m.incoming_qty ≡ 0) ⊎ Uncrossed m.book.min_price m.book.max_price side limit v
            why_uncrossed (inl e) = inl e
            why_uncrossed (inr e) = inr (Uncrossed-of_crosses max_orders hash cap r side limit e)

        by_test :
            ((m₁ : Matching S)
              → 0 < fuel
              → (0 < m₁.incoming_qty → max_orders < fuel + m₁.book.pool.top)
              → (v₁ : View) → Represents max_orders hash cap m₁.book v₁
              → m₁.incoming_qty < 2 ^ 64
              → (m' : Matching S) × (match_order max_orders hash sink fuel id side limit m₁
                  ≡ some m')
                × Matched side limit id v₁ m₁ m')
            → (m' : Matching S) × (match_order max_orders hash sink (suc fuel) id side limit m
                ≡ some m')
              × Matched side limit id v m m'
        by_test loop = elim (eq-cases m.incoming_qty 0) [
          | inl spent ↦ (m, match_stop fuel id side limit m (inl spent), done (inl spent))
          | inr some_left ↦ elim (Bool-cases (crosses m.book side limit)) [
            | inr apart ↦ (m, match_stop fuel id side limit m (inr apart), done (inr apart))
            | inl meets ↦
                let pos : 0 < m.incoming_qty = omega (arith, some_left) in
                let (b, set, ok) = crosses-true m.book side limit meets in
                let top = IsTop-of_best max_orders hash cap r (opposite side) b set in
                let q = v (opposite side) b in
                let (m₁, run, lvl) =
                  match_at_level_lem max_orders hash cap sink (max_orders + 1) (opposite side) b id
                    r (top.low, top.high) word
                    (omega (
                      arith,
                      queue_small max_orders hash cap r (opposite side) b (top.low, top.high),
                    )) in
                let used =
                  used_slot max_orders hash cap r (opposite side) b (top.low, top.high)
                    top.filled in
                let bound = enough pos in
                let (m', go, matched) =
                  loop m₁ (omega (arith, bound, used)) (enough₁ b m₁ bound lvl top.filled) _
                    lvl.stored
                    (omega (arith, lvl.left, word, consume-left-le id b m.incoming_qty q)) in
                (
                  m',
                  match_go fuel id side limit b m m₁ pos meets set run ∙ go,
                  Matched-take m m₁ m' b pos top ok lvl matched,
                )
          ]
        ]
          where
            enough₁ :
                (b : ℕ) (m₁ : Matching S)
                → max_orders < suc fuel + m.book.pool.top
                → LevelMatched max_orders hash cap sink (opposite side) b id v m m₁
                → v (opposite side) b ≢ []
                → 0 < m₁.incoming_qty
                → max_orders < fuel + m₁.book.pool.top
            enough₁ b m₁ bound lvl filled some_left =
                let q = v (opposite side) b in
                let was : 0 < (consume id b m.incoming_qty q).left =
                  omega (arith, lvl.left, some_left) in
                omega (
                  arith,
                  bound,
                  lvl.slots,
                  ap (length {0}) (consume-left id b m.incoming_qty q was),
                  nonempty_length q filled,
                )

    -- On a well-formed book and a 64-bit quantity the matching loop ends with the fuel of a
    -- submission, and what it does is the matching with price-time priority: the best price first
    -- and the oldest order first at each, while something is left and the best price is
    -- acceptable. The new book is well formed.
    pub match_order_lem :
        {m : Matching S} {v : View} (id : ℕ) (side : Side) (limit : ℕ)
        → Represents max_orders hash cap m.book v
        → m.incoming_qty < 2 ^ 64
        → (m' : Matching S) × (match_order max_orders hash sink (max_orders + 1) id side limit m
            ≡ some m')
          × Matched side limit id v m m'
    match_order_lem id side limit r word =
        match_order_loop (max_orders + 1) id side limit r word (omega arith) (λ pos. omega arith)
