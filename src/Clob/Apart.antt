-- ===== src/Clob/Apart.antt =====
-- Trading against the abstract book keeps bids below asks, and is at prices the limit accepts: what
-- matching in src/fixed_clob.hpp is for.
use mathlib.Core.Path.{subst}
use lowlat_matching_engine.Common.{
  ℕ, ◌-◌, ◌≤◌, ◌<◌, ◌≡◌, ◌≢◌, refl, sym, ◌∙◌, inl, inr, arith, List, [], ◌∷◌, ◌++◌, eq-cases,
  lt-cases,
}
use lowlat_matching_engine.Types.{Side, buy, sell, Execution}
use lowlat_matching_engine.Clob.{opposite}
use lowlat_matching_engine.Clob.Invariant.{requeue, requeue_away}
use lowlat_matching_engine.Clob.View.{Entry, View, consume, trade}
use lowlat_matching_engine.Clob.Cancel.{HasId}
use lowlat_matching_engine.Clob.Trades.{Acceptable, Uncrossed, Trades, stop, take, Trades-HasId}

-- Every bid is below every ask.
abbrev pub IsUncrossed : ℕ → ℕ → View → Type 0
IsUncrossed lo hi v =
    (bid ask : ℕ)
    → lo ≤ bid
    → bid ≤ hi
    → lo ≤ ask
    → ask ≤ hi
    → v buy bid ≢ []
    → v sell ask ≢ []
    → bid < ask

-- The executions are of the incoming order, at prices that its limit accepts.
abbrev pub AreFair : Side → ℕ → ℕ → List Execution → Type 0
AreFair side limit id [] = Unit
AreFair side limit id (e ∷ es) =
    (e.incoming_order_id ≡ id) × Acceptable side limit e.price × AreFair side limit id es

pub AreFair-append :
    (side : Side) (limit id : ℕ) (xs ys : List Execution)
    → AreFair side limit id xs
    → AreFair side limit id ys
    → AreFair side limit id (xs ++ ys)
AreFair-append side limit id [] ys f g = g
AreFair-append side limit id (x ∷ xs) ys f g = (f.0, f.1, AreFair-append side limit id xs ys f.2 g)

pub consume-AreFair :
    (side : Side) (limit id price n : ℕ) (q : List Entry)
    → Acceptable side limit price
    → AreFair side limit id (consume id price n q).trades
unfolding consume
consume-AreFair side limit id price n [] ok = tt
consume-AreFair side limit id price n (e ∷ q) ok = elim (eq-cases n 0) [
  | inl z ↦
      let s : (consume id price n (e ∷ q)).trades ≡ [] = ground (arith, z) in
      subst (AreFair side limit id) (sym s) tt
  | inr nz ↦ elim (lt-cases n e.qty) [
    | inl less ↦
        let s : (consume id price n (e ∷ q)).trades ≡ trade id e.order_id price n ∷ [] =
          ground (arith, nz, less) in
        subst (AreFair side limit id) (sym s) (refl, ok, tt)
    | inr more ↦
        let s : (consume id price n (e ∷ q)).trades
            ≡ trade id e.order_id price e.qty ∷ (consume id price (n - e.qty) q).trades =
          ground (arith, nz, more) in
        subst (AreFair side limit id) (sym s)
          (refl, ok, consume-AreFair side limit id price (n - e.qty) q ok)
  ]
]

pub Trades-AreFair :
    {lo hi : ℕ} {side : Side} {limit id : ℕ} {v v' : View} {n n' : ℕ} {es : List Execution}
    → Trades lo hi side limit id v n es v' n'
    → AreFair side limit id es
Trades-AreFair (stop h) = tt
Trades-AreFair {side = side} {limit} {id} {v} {n = n} (take {es = es} b pos top ok rest) =
    AreFair-append side limit id (consume id b n (v (opposite side) b)).trades es
      (consume-AreFair side limit id b n (v (opposite side) b) ok) (Trades-AreFair rest)

pub HasId-nonempty : (k : ℕ) (q : List Entry) → HasId k q → q ≢ []
HasId-nonempty k [] h e = h
HasId-nonempty k (x ∷ q) h e = cc

pub nonempty_HasId : (q : List Entry) → q ≢ [] → (k : ℕ) × HasId k q
nonempty_HasId [] ne = absurd (ne refl)
nonempty_HasId (x ∷ q) ne = (x.order_id, inl refl)

-- Where orders are left after trading, there were orders before.
pub Trades-nonempty :
    {lo hi : ℕ} {side : Side} {limit id : ℕ} {v v' : View} {n n' : ℕ} {es : List Execution}
    → Trades lo hi side limit id v n es v' n'
    → (s : Side) (p : ℕ) → v' s p ≢ []
    → v s p ≢ []
Trades-nonempty {v = v} {v'} t s p ne =
    let (k, h) = nonempty_HasId (v' s p) ne in HasId-nonempty k (v s p) (Trades-HasId t k s p h)

pub Trades-IsUncrossed :
    {lo hi : ℕ} {side : Side} {limit id : ℕ} {v v' : View} {n n' : ℕ} {es : List Execution}
    → Trades lo hi side limit id v n es v' n'
    → IsUncrossed lo hi v
    → IsUncrossed lo hi v'
Trades-IsUncrossed t u bid ask bl bh al ah bne ane =
    u bid ask bl bh al ah (Trades-nonempty t buy bid bne) (Trades-nonempty t sell ask ane)

-- An order may rest at its limit where no order of the other side is acceptable.
pub rest-IsUncrossed :
    (lo hi : ℕ) (side : Side) (limit : ℕ) (v : View) (q : List Entry)
    → Uncrossed lo hi side limit v
    → IsUncrossed lo hi v
    → IsUncrossed lo hi (requeue v side limit q)
rest-IsUncrossed lo hi buy limit v q none_ok u bid ask bl bh al ah bne ane =
    elim (eq-cases bid limit) [
      | inl e ↦ elim (lt-cases limit ask) [
        | inl less ↦ omega (arith, e, less)
        | inr more ↦ absurd (ane (none_ok ask al ah (omega (arith, more))))
      ]
      | inr ne ↦
          let away = requeue_away v buy limit q buy bid (λ _. ne) in
          u bid ask bl bh al ah (λ z. bne (away ∙ z)) ane
    ]
rest-IsUncrossed lo hi sell limit v q none_ok u bid ask bl bh al ah bne ane =
    elim (eq-cases ask limit) [
      | inl e ↦ elim (lt-cases bid limit) [
        | inl less ↦ omega (arith, e, less)
        | inr more ↦ absurd (bne (none_ok bid bl bh (omega (arith, more))))
      ]
      | inr ne ↦
          let away = requeue_away v sell limit q sell ask (λ _. ne) in
          u bid ask bl bh al ah bne (λ z. ane (away ∙ z))
    ]
