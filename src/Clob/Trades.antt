-- ===== src/Clob/Trades.antt =====
-- The matching of an incoming order against the abstract book, as price-time priority describes it.
use mathlib.Core.Path.{subst, subst₂}
use lowlat_matching_engine.Common.{
  ℕ, ◌+◌, ◌-◌, ◌≤◌, ◌<◌, ◌≡◌, ◌≢◌, refl, sym, ◌∙◌, ◌⊎◌, inl, inr, arith, List, [], ◌∷◌, ◌++◌,
  length, eq-cases, lt-cases,
}
use lowlat_matching_engine.Types.{Side, buy, sell, Execution}
use lowlat_matching_engine.Clob.{opposite}
use lowlat_matching_engine.Clob.Invariant.{requeue, requeue_here, requeue_away, spot_cases, Better}
use lowlat_matching_engine.Clob.View.{Entry, View, consume, quantities}
use lowlat_matching_engine.Clob.Cancel.{HasId}

-- An incoming order at `limit` trades at `p`.
abbrev pub Acceptable : Side → ℕ → ℕ → Type 0
Acceptable buy limit p = p ≤ limit
Acceptable sell limit p = limit ≤ p

-- No order of the other side rests at a price between `lo` and `hi` that is acceptable.
abbrev pub Uncrossed : ℕ → ℕ → Side → ℕ → View → Type 0
Uncrossed lo hi side limit v =
    (p : ℕ) → lo ≤ p → p ≤ hi → Acceptable side limit p → v (opposite side) p ≡ []

-- `b` is the best price at which orders of a side rest.
pub record IsTop (lo hi : ℕ) (side : Side) (v : View) (b : ℕ) : Type 0 where
  pub low : lo ≤ b
  pub high : b ≤ hi
  pub filled : v side b ≢ []
  pub best : (p : ℕ) → lo ≤ p → p ≤ hi → Better side p b → v side p ≡ []

-- An incoming order trades with the best price of the other side, its oldest order first, again and
-- again until nothing is left of it or the best price is not acceptable.
pub data Trades (lo hi : ℕ) (side : Side) (limit id : ℕ)
    : View → ℕ → List Execution → View → ℕ → Type 0 where
  stop :
      {v : View} {n : ℕ}
      → (n ≡ 0) ⊎ Uncrossed lo hi side limit v
      → Trades lo hi side limit id v n [] v n
  take :
      {v v' : View} {n n' : ℕ} {es : List Execution} (b : ℕ)
      → 0 < n
      → IsTop lo hi (opposite side) v b
      → Acceptable side limit b
      → Trades lo hi side limit id
          (requeue v (opposite side) b (consume id b n (v (opposite side) b)).queue)
          (consume id b n (v (opposite side) b)).left
          es
          v'
          n'
      → Trades lo hi side limit id v n ((consume id b n (v (opposite side) b)).trades ++ es) v' n'

-- An order of which something is left has used up the queue.
pub consume-left :
    (id price n : ℕ) (q : List Entry)
    → 0 < (consume id price n q).left
    → (consume id price n q).queue ≡ []
unfolding consume
consume-left id price n [] h = refl
consume-left id price n (e ∷ q) h = ground (arith, consume-left id price (n - e.qty) q)

pub consume-left-le : (id price n : ℕ) (q : List Entry) → (consume id price n q).left ≤ n
unfolding consume
consume-left-le id price n [] = omega arith
consume-left-le id price n (e ∷ q) = ground (arith, consume-left-le id price (n - e.qty) q)

pub consume-length :
    (id price n : ℕ) (q : List Entry) → length (consume id price n q).queue ≤ length q
unfolding consume
consume-length id price n [] = omega arith
consume-length id price n (e ∷ q) = ground (arith, consume-length id price (n - e.qty) q)

-- The orders that remain were there.
pub consume-HasId :
    (k id price n : ℕ) (q : List Entry) → HasId k (consume id price n q).queue → HasId k q
unfolding consume
consume-HasId k id price n [] h = h
consume-HasId k id price n (e ∷ q) h = elim (eq-cases n 0) [
  | inl z ↦
      let s : (consume id price n (e ∷ q)).queue ≡ e ∷ q = ground (arith, z) in
      subst (λ (r : List Entry). HasId k r) s h
  | inr nz ↦ elim (lt-cases n e.qty) [
    | inl less ↦
        let s : (consume id price n (e ∷ q)).queue ≡ record e { qty = e.qty - n } ∷ q =
          ground (arith, nz, less) in
        let h' = subst (λ (r : List Entry). HasId k r) s h in h'
    | inr more ↦
        let s : (consume id price n (e ∷ q)).queue ≡ (consume id price (n - e.qty) q).queue =
          ground (arith, nz, more) in
        inr (consume-HasId k id price (n - e.qty) q (subst (λ (r : List Entry). HasId k r) s h))
  ]
]

abbrev pub traded : List Execution → ℕ
traded [] = 0
traded (e ∷ es) = e.qty + traded es

pub traded-append : (xs ys : List Execution) → traded (xs ++ ys) ≡ traded xs + traded ys
traded-append [] ys = omega arith
traded-append (e ∷ xs) ys = omega (arith, traded-append xs ys)

-- What is traded leaves the incoming order and the queue alike.
pub consume-traded :
    (id price n : ℕ) (q : List Entry)
    → ((consume id price n q).left + traded (consume id price n q).trades ≡ n)
      × (quantities (consume id price n q).queue + traded (consume id price n q).trades
          ≡ quantities q)
unfolding consume
consume-traded id price n [] = (omega arith, omega arith)
consume-traded id price n (e ∷ q) =
    let rest = consume-traded id price (n - e.qty) q in
    (ground (arith, rest.0), ground (arith, rest.1))

module _ {lo hi : ℕ} {side : Side} {limit id : ℕ} where
  pub Trades-left :
      {v v' : View} {n n' : ℕ} {es : List Execution}
      → Trades lo hi side limit id v n es v' n'
      → n' ≤ n
  Trades-left (stop h) = omega arith
  Trades-left {v} {n = n} (take b pos top ok rest) =
      let more = Trades-left rest in
      omega (arith, more, consume-left-le id b n (v (opposite side) b))

  -- The quantity of the incoming order is what was traded and what is left.
  pub Trades-traded :
      {v v' : View} {n n' : ℕ} {es : List Execution}
      → Trades lo hi side limit id v n es v' n'
      → n' + traded es ≡ n
  Trades-traded (stop h) = omega arith
  Trades-traded {v} {n = n} (take {es = es} b pos top ok rest) =
      let more = Trades-traded rest in
      let f = consume id b n (v (opposite side) b) in
      omega
        (arith, more, (consume-traded id b n (v (opposite side) b)).0, traded-append f.trades es)

  -- The orders that remain were there.
  pub Trades-HasId :
      {v v' : View} {n n' : ℕ} {es : List Execution}
      → Trades lo hi side limit id v n es v' n'
      → (k : ℕ) (s : Side) (p : ℕ) → HasId k (v' s p)
      → HasId k (v s p)
  Trades-HasId (stop h) k s p w = w
  Trades-HasId {v} {n = n} (take b pos top ok rest) k s p w = before (Trades-HasId rest k s p w)
    where
      before :
          HasId k (requeue v (opposite side) b (consume id b n (v (opposite side) b)).queue s p)
          → HasId k (v s p)
      before h = elim (spot_cases s (opposite side) p b) [
        | inl (es, ep) ↦
            subst₂ (λ (s : Side) (p : ℕ). HasId k (v s p)) (sym es) (sym ep)
              (consume-HasId k id b n (v (opposite side) b) (
                subst (λ (q : List Entry). HasId k q) (requeue_here v (opposite side) b _)
                  (subst₂
                    (λ (s : Side) (p : ℕ). HasId k (
                      requeue v (opposite side) b (consume id b n (v (opposite side) b)).queue s p))
                    es ep h)))
        | inr away ↦
            subst (λ (q : List Entry). HasId k q) (requeue_away v (opposite side) b _ s p away) h
      ]

  -- The queues of the incoming order's own side are left alone.
  pub Trades-own_side :
      {v v' : View} {n n' : ℕ} {es : List Execution}
      → Trades lo hi side limit id v n es v' n'
      → (p : ℕ) → v' side p ≡ v side p
  Trades-own_side (stop h) p = refl
  Trades-own_side {v} (take b pos top ok rest) p =
      Trades-own_side rest p
      ∙ requeue_away v (opposite side) b _ side p (λ e. absurd (apart side e))
    where
      apart : (s : Side) → s ≢ opposite s
      apart buy e = ground (arith, e)
      apart sell e = ground (arith, e)

  -- What ends the matching.
  pub Trades-end :
      {v v' : View} {n n' : ℕ} {es : List Execution}
      → Trades lo hi side limit id v n es v' n'
      → (n' ≡ 0) ⊎ Uncrossed lo hi side limit v'
  Trades-end (stop h) = h
  Trades-end (take b pos top ok rest) = Trades-end rest
