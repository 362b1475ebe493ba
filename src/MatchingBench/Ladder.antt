-- ===== src/MatchingBench/Ladder.antt =====
-- A book in which one unit is for sale at each of some consecutive prices, and a buy of all of them.
use mathlib.Core.Path.{subst}
use lowlat_matching_engine.Common.{
  ℕ, zero, suc, ◌+◌, ◌-◌, ◌≤◌, ◌<◌, ◌≡◌, ◌≢◌, refl, sym, ap, ap₂, ◌∙◌, inl, inr, arith, true, false,
  List, [], ◌∷◌, ◌++◌, length, ◌==◌, leb, ltb, ◌&&◌, if◌then◌else◌, eq-cases, lt-cases,
}
use lowlat_matching_engine.Types.{Side, buy, sell, Execution}
use lowlat_matching_engine.Clob.Invariant.{requeue, same_side}
use lowlat_matching_engine.Clob.View.{Entry, View, Filled, consume, trade}
use lowlat_matching_engine.Clob.Trades.{IsTop, Trades, stop, take}
use lowlat_matching_engine.Clob.Cancel.{HasId}
use lowlat_matching_engine.Clob.Waiting.{resting_from, orders_resting}

-- The order of the level with number `a`.
abbrev pub unit_of : ℕ → Entry
unit_of a = record { order_id = a + 1; qty = 1 }

-- One unit at each price from 10001 + a to 10000 + b.
abbrev pub ladder : ℕ → ℕ → View
ladder a b buy p = []
ladder a b sell p = if leb (10001 + a) p && leb p (10000 + b) then unit_of (p - 10001) ∷ [] else []

-- What a buy of all levels trades.
unfoldable pub sweep_trades : (id rounds a : ℕ) → List Execution
sweep_trades id zero a = []
sweep_trades id (suc rounds) a = trade id (a + 1) (10001 + a) 1 ∷ sweep_trades id rounds (a + 1)

pub length-sweep_trades : (id rounds a : ℕ) → length (sweep_trades id rounds a) ≡ rounds
unfolding sweep_trades
length-sweep_trades id zero a = refl
length-sweep_trades id (suc rounds) a = omega (arith, length-sweep_trades id rounds (a + 1))

pub ladder-in :
    (a b p : ℕ) → 10001 + a ≤ p → p ≤ 10000 + b → ladder a b sell p ≡ unit_of (p - 10001) ∷ []
ladder-in a b p l h = ground (arith, l, h)

pub ladder-below : (a b p : ℕ) → p < 10001 + a → ladder a b sell p ≡ []
ladder-below a b p h = ground (arith, h)

pub ladder-above : (a b p : ℕ) → 10000 + b < p → ladder a b sell p ≡ []
ladder-above a b p h = ground (arith, h)

-- The next level is filled.
pub ladder-grow :
    (b : ℕ) (s : Side) (p : ℕ)
    → requeue (ladder 0 b) sell (10001 + b) (unit_of b ∷ []) s p ≡ ladder 0 (b + 1) s p
ladder-grow b buy p = refl
ladder-grow b sell p = elim (eq-cases p (10001 + b)) [
  | inl here ↦
      let new = ladder-in 0 (b + 1) p (omega (arith, here)) (omega (arith, here)) in
      let id : p - 10001 ≡ b = omega (arith, here) in
      let test : p == 10001 + b ≡ true = ground (arith, here) in
      rw test (ap (λ (k : ℕ). unit_of k ∷ []) (sym id) ∙ sym new)
  | inr away ↦ ground (arith, away)
]

-- The lowest level is taken.
pub ladder-shrink :
    (a b : ℕ) (s : Side) (p : ℕ)
    → requeue (ladder a b) sell (10001 + a) [] s p ≡ ladder (a + 1) b s p
ladder-shrink a b buy p = refl
ladder-shrink a b sell p = elim (eq-cases p (10001 + a)) [
  | inl here ↦
      let test : p == 10001 + a ≡ true = ground (arith, here) in
      rw test (sym (ladder-below (a + 1) b p (omega (arith, here))))
  | inr away ↦ ground (arith, away)
]

resting-ladder_from :
    (b k p : ℕ)
    → (resting_from (ladder 0 b sell) k p ≤ b)
      × (10001 ≤ p → resting_from (ladder 0 b sell) k p ≤ 10001 + b - p)
resting-ladder_from b zero p = (omega arith, λ l. omega arith)
resting-ladder_from b (suc k) p =
    let rest = resting-ladder_from b k (p + 1) in
    elim (lt-cases p 10001) [
      | inl low ↦
          let none_here = ap (length {0}) (ladder-below 0 b p (omega (arith, low))) in
          (omega (arith, none_here, rest.0), λ l. absurd (omega (arith, low, l)))
      | inr high ↦
          let after = rest.1 (omega (arith, high)) in
          elim (lt-cases (10000 + b) p) [
            | inl over ↦
                let none_here = ap (length {0}) (ladder-above 0 b p over) in
                (omega (arith, none_here, rest.0), λ l. omega (arith, none_here, after, over))
            | inr inside ↦
                let one_here = ap (length {0}) (ladder-in 0 b p (omega (arith, high)) inside) in
                (
                  omega (arith, one_here, after, inside, high),
                  λ l. omega (arith, one_here, after, inside),
                )
          ]
    ]

resting-bids : (a b k p : ℕ) → resting_from (ladder a b buy) k p ≡ 0
resting-bids a b zero p = refl
resting-bids a b (suc k) p = omega (arith, resting-bids a b k (p + 1))

pub resting-ladder : (lo hi b : ℕ) → orders_resting lo hi (ladder 0 b) ≤ b
resting-ladder lo hi b =
    omega (arith, resting-bids 0 b (hi + 1 - lo) lo, (resting-ladder_from b (hi + 1 - lo) lo).0)

consume-unit :
    (id price n a : ℕ)
    → 0 < n
    → consume id price n (unit_of a ∷ [])
      ≡ record { left = n - 1; queue = []; trades = trade id (a + 1) price 1 ∷ [] }
unfolding consume
consume-unit id price n a pos =
    let nz : n == 0 ≡ false = ground (arith, pos) in
    let more : ltb n 1 ≡ false = ground (arith, pos) in rw (consume, nz, more)

pub unit_there : {x : Entry} {xs : List Entry} → x ∷ xs ≢ []
unit_there e = ground (arith, e)

-- The best price of a ladder that is not used up is its lowest.
lowest :
    {lo hi b : ℕ} {v : View} (a c : ℕ)
    → lo ≤ 10001
    → 10000 + b ≤ hi
    → ((p : ℕ) → v sell p ≡ ladder a b sell p)
    → a < b
    → IsTop lo hi sell v c
    → c ≡ 10001 + a
lowest {lo} {hi} {b} {v} a c low high at more top = elim (lt-cases c (10001 + a)) [
  | inl below ↦ absurd (top.filled (at c ∙ ladder-below a b c below))
  | inr above ↦ elim (eq-cases c (10001 + a)) [
    | inl same ↦ same
    | inr away ↦
        let there : v sell (10001 + a) ≡ unit_of (10001 + a - 10001) ∷ [] =
          at (10001 + a) ∙ ladder-in a b (10001 + a) (omega arith) (omega (arith, more)) in
        let none_there : v sell (10001 + a) ≡ [] =
          top.best (10001 + a) (omega (arith, low)) (omega (arith, high, more))
            (omega (arith, above, away)) in
        absurd (unit_there (sym there ∙ none_there))
  ]
]

-- A buy of all levels takes one after the other.
pub sweep-Trades :
    {lo hi id b : ℕ} {v v' : View} {n n' : ℕ} {es : List Execution} (a : ℕ)
    → lo ≤ 10001
    → 10000 + b ≤ hi
    → ((s : Side) (p : ℕ) → v s p ≡ ladder a b s p)
    → a + n ≡ b
    → Trades lo hi buy (10000 + b) id v n es v' n'
    → (n' ≡ 0) × (es ≡ sweep_trades id n a) × ((s : Side) (p : ℕ) → v' s p ≡ ladder b b s p)
unfolding sweep_trades
sweep-Trades {id = id} {b} {v} {n = zero} a low high is count (stop h) =
    let same : a ≡ b = omega (arith, count) in
    (refl, refl, λ s p. is s p ∙ ap (λ (k : ℕ). ladder k b s p) same)
sweep-Trades {n = suc n} a low high is count (stop (inl z)) = absurd (omega (arith, z))
sweep-Trades {lo} {hi} {b = b} {v} {n = suc n} a low high is count (stop (inr none_there)) =
    let there : v sell (10001 + a) ≡ unit_of (10001 + a - 10001) ∷ [] =
      is sell (10001 + a) ∙ ladder-in a b (10001 + a) (omega arith) (omega (arith, count)) in
    let gone : v sell (10001 + a) ≡ [] =
      none_there (10001 + a) (omega (arith, low)) (omega (arith, high, count))
        (omega (arith, count)) in
    absurd (unit_there (sym there ∙ gone))
sweep-Trades {n = zero} a low high is count (take c pos top ok rest) = absurd (omega (arith, pos))
sweep-Trades {lo} {hi} {id} {b} {v} {n = suc n} a low high is count
      (take {es = es} c pos top ok rest) =
    let best : c ≡ 10001 + a = lowest a c low high (is sell) (omega (arith, count)) top in
    let queue : v sell c ≡ unit_of a ∷ [] =
      is sell c
      ∙ ladder-in a b c (omega (arith, best)) (omega (arith, best, count))
      ∙ ap (λ (k : ℕ). unit_of k ∷ []) (let e : c - 10001 ≡ a = omega (arith, best) in e) in
    let fill : consume id c (suc n) (v sell c)
        ≡ record { left = n; queue = []; trades = trade id (a + 1) (10001 + a) 1 ∷ [] } =
      ap (consume id c (suc n)) queue
      ∙ consume-unit id c (suc n) a (omega arith)
      ∙ ap₂ (λ (m p : ℕ). record { left = m; queue = []; trades = trade id (a + 1) p 1 ∷ [] })
          (let e : suc n - 1 ≡ n = omega arith in e) best in
    let left : (consume id c (suc n) (v sell c)).left ≡ n = ap (λ (f : Filled). f.left) fill in
    let (over, made, view) =
      sweep-Trades (a + 1) low high
        (λ s p.
          ap₂ (λ (x : ℕ) (r : List Entry). requeue v sell x r s p) best
            (ap (λ (f : Filled). f.queue) fill)
          ∙ requeue-same a s p
          ∙ ladder-shrink a b s p)
        (omega (arith, left, count)) rest in
    (
      over,
      ap₂ (λ (xs ys : List Execution). xs ++ ys) (ap (λ (f : Filled). f.trades) fill)
          (made ∙ ap (λ (m : ℕ). sweep_trades id m (a + 1)) left),
      view,
    )
  where
    requeue-same :
        (k : ℕ) (s : Side) (p : ℕ)
        → requeue v sell (10001 + k) [] s p ≡ requeue (ladder a b) sell (10001 + k) [] s p
    requeue-same k s p =
        ap (λ (q : List Entry). if same_side s sell && p == 10001 + k then [] else q) (is s p)

-- A ladder that is used up is an empty book.
pub ladder-empty : (b : ℕ) (s : Side) (p : ℕ) → ladder b b s p ≡ []
ladder-empty b buy p = refl
ladder-empty b sell p = elim (lt-cases p (10001 + b)) [
  | inl low ↦ ladder-below b b p low
  | inr high ↦ ladder-above b b p (omega (arith, high))
]

-- The ids that rest are those of the levels that are filled.
pub ladder-HasId : (b k : ℕ) (s : Side) (p : ℕ) → HasId k (ladder 0 b s p) → k ≤ b
ladder-HasId b k buy p h = absurd h
ladder-HasId b k sell p h = elim (lt-cases p 10001) [
  | inl low ↦
      absurd (subst (λ (q : List Entry). HasId k q) (ladder-below 0 b p (omega (arith, low))) h)
  | inr high ↦ elim (lt-cases (10000 + b) p) [
    | inl over ↦ absurd (subst (λ (q : List Entry). HasId k q) (ladder-above 0 b p over) h)
    | inr inside ↦
        one (subst (λ (q : List Entry). HasId k q) (ladder-in 0 b p (omega (arith, high)) inside) h)
          (omega (arith, high)) inside
  ]
]
  where
    one : HasId k (unit_of (p - 10001) ∷ []) → 10001 ≤ p → p ≤ 10000 + b → k ≤ b
    one (inl e) l u = omega (arith, e, l, u)
    one (inr e) l u = absurd e
