-- ===== src/Workload/OneLevel.antt =====
-- An abstract book in which sells wait at one price, and what a buy of the oldest of them trades.
pub mod Orders
use mathlib.Core.Path.{subst}
use lowlat_matching_engine.Common.{
  ℕ, zero, suc, ◌+◌, ◌-◌, ◌*◌, ◌^◌, ◌≤◌, ◌<◌, ◌≡◌, ◌≢◌, refl, sym, ap, ap₂, ◌∙◌, inl, inr, arith,
  true, false, some, ◌==◌, ltb, List, [], ◌∷◌, ◌++◌, length, eq-cases,
}
use lowlat_matching_engine.Types.{Side, buy, sell, Execution}
use lowlat_matching_engine.Pool
use lowlat_matching_engine.Index.Probing.{IsCapacity}
use lowlat_matching_engine.Sink.{Sink, emit}
use lowlat_matching_engine.Clob.{Clob, Outcome, submit_limit_order, available_slots}
use lowlat_matching_engine.Clob.Invariant.{
  requeue, InRange, SameRange, requeue_here, requeue_away, spot_cases,
}
use lowlat_matching_engine.Clob.View.{
  Entry, View, Filled, Represents, Represents_congr, consume, trade,
}
use lowlat_matching_engine.Clob.Create.{empty_view}
use lowlat_matching_engine.Clob.Cancel.{HasId, IsResting}
use lowlat_matching_engine.Clob.Trades.{Trades, stop, take}
use lowlat_matching_engine.Clob.Count.{active_orders-resting}
use lowlat_matching_engine.Clob.Waiting.{resting_from, orders_resting}
use lowlat_matching_engine.Clob.Submit.{Submitted, filled, rested, no_slot, submit_limit_order_lem}

-- Only the sells `q` wait, at `price`.
abbrev pub asks_at : ℕ → List Entry → View
asks_at price q = requeue empty_view sell price q

asks_at-here : (price : ℕ) (q : List Entry) → asks_at price q sell price ≡ q
asks_at-here price q = requeue_here empty_view sell price q

-- A queue put in the place of the one that waits.
requeue-asks_at :
    (price : ℕ) (q q' : List Entry) (s : Side) (p : ℕ)
    → requeue (asks_at price q) sell price q' s p ≡ asks_at price q' s p
requeue-asks_at price q q' buy p = refl
requeue-asks_at price q q' sell p = ground arith

pub resting_from-nothing :
    (f : ℕ → List Entry) (k p : ℕ) → ((x : ℕ) → p ≤ x → f x ≡ []) → resting_from f k p ≡ 0
resting_from-nothing f zero p h = refl
resting_from-nothing f (suc k) p h = omega (
  arith,
  ap (length {0}) (h p (omega arith)),
  resting_from-nothing f k (p + 1) (λ x l. h x (omega (arith, l))),
)

resting_from-le :
    (price : ℕ) (q : List Entry) (k p : ℕ) → resting_from (asks_at price q sell) k p ≤ length q
resting_from-le price q zero p = omega arith
resting_from-le price q (suc k) p = elim (eq-cases p price) [
  | inl here ↦
      let one : length (asks_at price q sell p) ≡ length q =
        ap (λ (x : ℕ). length (asks_at price q sell x)) here
        ∙ ap (length {0}) (asks_at-here price q) in
      omega (
        arith,
        one,
        resting_from-nothing (asks_at price q sell) k (p + 1)
            (λ x l. requeue_away empty_view sell price q sell x (λ e. omega (arith, here, l))),
      )
  | inr away ↦ omega (
    arith,
    ap (length {0}) (requeue_away empty_view sell price q sell p (λ e. away)),
    resting_from-le price q k (p + 1),
  )
]

pub resting-asks_at :
    (lo hi price : ℕ) (q : List Entry) → orders_resting lo hi (asks_at price q) ≤ length q
resting-asks_at lo hi price q = omega (
  arith,
  resting_from-nothing (asks_at price q buy) (hi + 1 - lo) lo (λ x l. refl),
  resting_from-le price q (hi + 1 - lo) lo,
)

cons_apart : {x : Entry} {xs : List Entry} → x ∷ xs ≢ []
cons_apart e = ground (arith, e)

consume-zero :
    (id price : ℕ) (q : List Entry)
    → consume id price 0 q ≡ record { left = 0; queue = q; trades = [] }
unfolding consume
consume-zero id price [] = refl
consume-zero id price (e ∷ q) = refl

consume-first :
    (id price : ℕ) (e : Entry) (q : List Entry)
    → 0 < e.qty
    → consume id price e.qty (e ∷ q)
      ≡ record { left = 0; queue = q; trades = trade id e.order_id price e.qty ∷ [] }
unfolding consume
consume-first id price e q pos =
    let nz : e.qty == 0 ≡ false = ground (arith, pos) in
    let whole : ltb e.qty e.qty ≡ false = ground arith in
    let gone : e.qty - e.qty ≡ 0 = omega arith in
    let rest : consume id price (e.qty - e.qty) q ≡ record { left = 0; queue = q; trades = [] } =
      ap (λ (n : ℕ). consume id price n q) gone ∙ consume-zero id price q in
    rw (consume, nz, whole)
      (ap (λ (f : Filled). record f { trades = trade id e.order_id price e.qty ∷ f.trades }) rest)

module _ {lo hi price id : ℕ} where
  -- A sell meets no bid.
  pub sell-Trades :
      {v v' : View} {n n' : ℕ} {es : List Execution}
      → ((p : ℕ) → v buy p ≡ [])
      → Trades lo hi sell price id v n es v' n'
      → (es ≡ []) × (v' ≡ v) × (n' ≡ n)
  sell-Trades none_there (stop h) = (refl, refl, refl)
  sell-Trades none_there (take b pos top ok rest) = absurd (top.filled (none_there b))

  -- Nor does an order of nothing.
  done-Trades :
      {side : Side} {v v' : View} {n n' : ℕ} {es : List Execution}
      → n ≡ 0
      → Trades lo hi side price id v n es v' n'
      → (es ≡ []) × (v' ≡ v) × (n' ≡ 0)
  done-Trades z (stop h) = (refl, refl, z)
  done-Trades z (take b pos top ok rest) = absurd (omega (arith, pos, z))

  -- A buy of what the oldest sell is for takes it and no more.
  buy-Trades :
      (e : Entry) (q : List Entry) {v' : View} {n n' : ℕ} {es : List Execution}
      → lo ≤ price
      → price ≤ hi
      → 0 < n
      → n ≡ e.qty
      → Trades lo hi buy price id (asks_at price (e ∷ q)) n es v' n'
      → (n' ≡ 0)
        × (es ≡ trade id e.order_id price e.qty ∷ [])
        × ((s : Side) (p : ℕ) → v' s p ≡ asks_at price q s p)
  buy-Trades e q low high pos same (stop (inl z)) = absurd (omega (arith, pos, z))
  buy-Trades e q low high pos same (stop (inr none_there)) =
      absurd
        (cons_apart (sym (asks_at-here price (e ∷ q)) ∙ none_there price low high (omega arith)))
  buy-Trades e q {v'} {n} {n'} low high pos same (take {es = es} b some_left top ok rest) =
      elim (eq-cases b price) [
        | inr away ↦
            absurd (top.filled (requeue_away empty_view sell price (e ∷ q) sell b (λ _. away)))
        | inl here ↦
            let fill : consume id b n (asks_at price (e ∷ q) sell b)
                ≡ record { left = 0; queue = q; trades = trade id e.order_id price e.qty ∷ [] } =
              ap₂ (λ (p m : ℕ). consume id p m (asks_at price (e ∷ q) sell p)) here same
              ∙ ap (consume id price e.qty) (asks_at-here price (e ∷ q))
              ∙ consume-first id price e q (omega (arith, pos, same)) in
            let (none_more, view, over) = done-Trades (ap (λ (f : Filled). f.left) fill) rest in
            (
              over,
              ap₂ (λ (xs ys : List Execution). xs ++ ys) (ap (λ (f : Filled). f.trades) fill)
                  none_more,
              λ s p.
                  ap (λ (w : View). w s p) view
                  ∙ ap₂ (λ (x : ℕ) (r : List Entry). requeue (asks_at price (e ∷ q)) sell x r s p)
                      here (ap (λ (f : Filled). f.queue) fill)
                  ∙ requeue-asks_at price (e ∷ q) q s p,
            )
      ]
