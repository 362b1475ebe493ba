-- ===== src/Clob/Refresh.antt =====
-- The scan of src/fixed_clob.hpp for the next level when the best one has emptied.
use lowlat_matching_engine.Common.{
  ℕ, zero, suc, ◌+◌, ◌-◌, ◌≤◌, ◌≡◌, ◌≢◌, ◌↔◌, refl, sym, ap, ◌∙◌, inl, inr, arith, Option, some,
  true, List, [], eq-cases, Bool-cases, sub64, Option-cases,
}
use mathlib.Core.Path.{subst}
use lowlat_matching_engine.Types.{Side, buy, sell, PriceLevel, level_empty}
use lowlat_matching_engine.Clob.{
  Clob, levels, level, best, opposite, scan_down, scan_up, refresh_best_after_empty_level,
}
use lowlat_matching_engine.Clob.Invariant.{IsBest}
use lowlat_matching_engine.Clob.Best.{Agree}

-- The levels of a side are empty exactly where its queues are.
abbrev pub Mirrors : ℕ → ℕ → (ℕ → PriceLevel) → (ℕ → List ℕ) → Type 0
Mirrors lo hi lvls q =
    (p : ℕ) → lo ≤ p → p ≤ hi → (level_empty (lvls (sub64 p lo)) ≡ true) ↔ (q p ≡ [])

-- A scan started at a price at and above which the queues are empty finds the best price.
pub scan_down-IsBest :
    (lvls : ℕ → PriceLevel) (q : ℕ → List ℕ) (lo hi rounds price : ℕ)
    → Mirrors lo hi lvls q
    → lo ≤ price
    → price ≤ hi
    → rounds ≡ price - lo
    → ((p : ℕ) → price ≤ p → p ≤ hi → q p ≡ [])
    → IsBest lo hi buy q (scan_down lvls lo rounds price)
unfolding scan_down
scan_down-IsBest lvls q lo hi zero price mirror l h r gone = λ p lp hp. gone p (omega arith) hp
scan_down-IsBest lvls q lo hi (suc rounds) price mirror l h r gone =
    let m = mirror (price - 1) (omega arith) (omega arith) in
    elim (Bool-cases (level_empty (lvls (sub64 (price - 1) lo)))) [
      | inl e ↦
          let step : scan_down lvls lo (suc rounds) price ≡ scan_down lvls lo rounds (price - 1) =
            ground (arith, e) in
          subst (λ (b : Option ℕ). IsBest lo hi buy q b) (sym step)
            (scan_down-IsBest lvls q lo hi rounds (price - 1) mirror (omega arith) (omega arith)
              (omega arith)
              (λ p lp hp. elim (eq-cases p (price - 1)) [
                | inl s ↦ ap q s ∙ m.0 e
                | inr ne ↦ gone p (omega arith) hp
              ]))
      | inr e ↦
          let step : scan_down lvls lo (suc rounds) price ≡ some (price - 1) = ground (arith, e) in
          subst (λ (b : Option ℕ). IsBest lo hi buy q b) (sym step)
            (
              omega arith,
              omega arith,
              (λ z. let t = m.1 z in ground (arith, e, t)),
              λ p lp hp better. gone p (omega arith) hp,
            )
    ]

pub scan_up-IsBest :
    (lvls : ℕ → PriceLevel) (q : ℕ → List ℕ) (lo hi rounds price : ℕ)
    → Mirrors lo hi lvls q
    → lo ≤ price
    → price ≤ hi
    → rounds ≡ hi - price
    → ((p : ℕ) → lo ≤ p → p ≤ price → q p ≡ [])
    → IsBest lo hi sell q (scan_up lvls lo rounds price)
unfolding scan_up
scan_up-IsBest lvls q lo hi zero price mirror l h r gone = λ p lp hp. gone p lp (omega arith)
scan_up-IsBest lvls q lo hi (suc rounds) price mirror l h r gone =
    let m = mirror (price + 1) (omega arith) (omega arith) in
    elim (Bool-cases (level_empty (lvls (sub64 (price + 1) lo)))) [
      | inl e ↦
          let step : scan_up lvls lo (suc rounds) price ≡ scan_up lvls lo rounds (price + 1) =
            ground (arith, e) in
          subst (λ (b : Option ℕ). IsBest lo hi sell q b) (sym step)
            (scan_up-IsBest lvls q lo hi rounds (price + 1) mirror (omega arith) (omega arith)
              (omega arith)
              (λ p lp hp. elim (eq-cases p (price + 1)) [
                | inl s ↦ ap q s ∙ m.0 e
                | inr ne ↦ gone p lp (omega arith)
              ]))
      | inr e ↦
          let step : scan_up lvls lo (suc rounds) price ≡ some (price + 1) = ground (arith, e) in
          subst (λ (b : Option ℕ). IsBest lo hi sell q b) (sym step)
            (
              omega arith,
              omega arith,
              (λ z. let t = m.1 z in ground (arith, e, t)),
              λ p lp hp better. gone p lp (omega arith),
            )
    ]

pub record BestRefreshed (c : Clob) (side : Side) (price : ℕ) (q : ℕ → List ℕ) (c' : Clob)
    : Type 0 where
  pub agree : Agree c c'
  pub mine : IsBest c.min_price c.max_price side q (best c' side)
  pub other : best c' (opposite side) ≡ best c (opposite side)

pub Agree-refl : (c : Clob) → Agree c c
Agree-refl c = record {
  min_price = refl;
  max_price = refl;
  pool = refl;
  order_lookup = refl;
  same_levels = λ s p. refl;
}

-- An empty queue away from the best price leaves the best price the best.
pub IsBest-away :
    (lo hi : ℕ) (side : Side) (q q' : ℕ → List ℕ) (b price : ℕ)
    → IsBest lo hi side q (some b)
    → price ≢ b
    → q' price ≡ []
    → ((p : ℕ) → p ≢ price → q' p ≡ q p)
    → IsBest lo hi side q' (some b)
IsBest-away lo hi side q q' b price old ne gone same = (
  old.0,
  old.1,
  (λ e. old.2 (sym (same b (λ s. ne (sym s))) ∙ e)),
  λ p lp hp better. elim (eq-cases p price) [
    | inl s ↦ ap q' s ∙ gone
    | inr apart ↦ same p apart ∙ old.3 p lp hp better
  ],
)

-- After a queue has emptied, `refresh_best_after_empty_level` leaves the best price of the side.
pub refresh_best_effect :
    (c : Clob) (side : Side) (price : ℕ) (q q' : ℕ → List ℕ)
    → c.min_price ≤ price
    → price ≤ c.max_price
    → Mirrors c.min_price c.max_price (levels c side) q'
    → IsBest c.min_price c.max_price side q (best c side)
    → q price ≢ []
    → q' price ≡ []
    → ((p : ℕ) → p ≢ price → q' p ≡ q p)
    → BestRefreshed c side price q' (refresh_best_after_empty_level c side price)
unfolding refresh_best_after_empty_level level
refresh_best_effect c buy price q q' l h mirror old full gone same =
    elim (Option-cases c.best_bid) [
      | inl unset ↦ absurd (
          full
            (subst (λ (b : Option ℕ). IsBest c.min_price c.max_price buy q b) unset old price l h))
      | inr (b, set) ↦
          let old' = subst (λ (b : Option ℕ). IsBest c.min_price c.max_price buy q b) set old in
          elim (eq-cases price b) [
            | inl top ↦
                let scan =
                  scan_down-IsBest c.bid_levels q' c.min_price c.max_price (price - c.min_price)
                    price mirror l h refl
                    (λ p lp hp. elim (eq-cases p price) [
                      | inl s ↦ ap q' s ∙ gone
                      | inr ne ↦ same p ne ∙ old'.3 p (omega arith) hp (omega arith)
                    ]) in
                let new : best (refresh_best_after_empty_level c buy price) buy
                    ≡ scan_down c.bid_levels c.min_price (price - c.min_price) price =
                  ground (arith, set, top) in
                record {
                  agree = record {
                    min_price = ground (arith, set);
                    max_price = ground (arith, set);
                    pool = ground (arith, set);
                    order_lookup = ground (arith, set);
                    same_levels = λ s p. ground (arith, set);
                  };
                  mine =
                      subst (λ (b : Option ℕ). IsBest c.min_price c.max_price buy q' b) (sym new)
                        scan;
                  other = ground (arith, set);
                }
            | inr away ↦
                let still : refresh_best_after_empty_level c buy price ≡ c =
                  ground (arith, set, away) in
                subst (λ (d : Clob). BestRefreshed c buy price q' d) (sym still)
                  (record {
                    agree = Agree-refl c;
                    mine =
                        subst (λ (b : Option ℕ). IsBest c.min_price c.max_price buy q' b) (sym set)
                          (IsBest-away c.min_price c.max_price buy q q' b price old' away gone
                            same);
                    other = refl;
                  })
          ]
    ]
refresh_best_effect c sell price q q' l h mirror old full gone same =
    elim (Option-cases c.best_ask) [
      | inl unset ↦ absurd (
          full
            (subst (λ (b : Option ℕ). IsBest c.min_price c.max_price sell q b) unset old price l h))
      | inr (b, set) ↦
          let old' = subst (λ (b : Option ℕ). IsBest c.min_price c.max_price sell q b) set old in
          elim (eq-cases price b) [
            | inl top ↦
                let scan =
                  scan_up-IsBest c.ask_levels q' c.min_price c.max_price (c.max_price - price) price
                    mirror l h refl
                    (λ p lp hp. elim (eq-cases p price) [
                      | inl s ↦ ap q' s ∙ gone
                      | inr ne ↦ same p ne ∙ old'.3 p lp (omega arith) (omega arith)
                    ]) in
                let new : best (refresh_best_after_empty_level c sell price) sell
                    ≡ scan_up c.ask_levels c.min_price (c.max_price - price) price =
                  ground (arith, set, top) in
                record {
                  agree = record {
                    min_price = ground (arith, set);
                    max_price = ground (arith, set);
                    pool = ground (arith, set);
                    order_lookup = ground (arith, set);
                    same_levels = λ s p. ground (arith, set);
                  };
                  mine =
                      subst (λ (b : Option ℕ). IsBest c.min_price c.max_price sell q' b) (sym new)
                        scan;
                  other = ground (arith, set);
                }
            | inr away ↦
                let still : refresh_best_after_empty_level c sell price ≡ c =
                  ground (arith, set, away) in
                subst (λ (d : Clob). BestRefreshed c sell price q' d) (sym still)
                  (record {
                    agree = Agree-refl c;
                    mine =
                        subst (λ (b : Option ℕ). IsBest c.min_price c.max_price sell q' b) (sym set)
                          (IsBest-away c.min_price c.max_price sell q q' b price old' away gone
                            same);
                    other = refl;
                  })
          ]
    ]
