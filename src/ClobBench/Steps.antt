-- ===== src/ClobBench/Steps.antt =====
-- Which orders rest after one call of `add_order` or `cancel_order`, whatever the call returns.
use mathlib.Core.Path.{subst, subst₂}
use lowlat_matching_engine.Common.{
  ℕ, ◌*◌, ◌^◌, ◌<◌, ◌≡◌, ◌≢◌, refl, sym, ap, ◌∙◌, ◌⊎◌, inl, inr, arith, Option-cases, some, List,
  [], ◌∷◌, ◌++◌, eq-cases, Bool, Bool-cases,
}
use lowlat_matching_engine.Types.{Side}
use lowlat_matching_engine.Index
use lowlat_matching_engine.Index.{IsId}
use lowlat_matching_engine.Index.Probing.{IsCapacity}
use lowlat_matching_engine.Clob.{Clob, order_at, valid_price, add_order, cancel_order}
use lowlat_matching_engine.Clob.Queues.{Elem, IsNodup}
use lowlat_matching_engine.Clob.Invariant.{
  InRange, SameRange, requeue, requeue_here, requeue_away, spot_cases,
}
use lowlat_matching_engine.Clob.View.{Entry, View, withdraw, entries, Represents}
use lowlat_matching_engine.Clob.Requests.{
  lookup, valid_price-true, add_order_accepts, add_order_refuses,
}
use lowlat_matching_engine.Clob.Cancel.{
  HasId, IsResting, Elem-of_id, same_order, contains-IsResting, cancel_order_accepts,
  cancel_order_refuses,
}

HasId-snoc :
    (k : ℕ) (q : List Entry) (e : Entry) → HasId k (q ++ e ∷ []) → (k ≡ e.order_id) ⊎ HasId k q
HasId-snoc k [] e (inl is) = inl (sym is)
HasId-snoc k [] e (inr h) = absurd h
HasId-snoc k (x ∷ q) e (inl is) = inr (inl is)
HasId-snoc k (x ∷ q) e (inr h) = elim (HasId-snoc k q e h) [
  | inl new ↦ inl new
  | inr old ↦ inr (inr old)
]

HasId-withdraw : (k id : ℕ) (q : List Entry) → HasId k (withdraw id q) → HasId k q
unfolding withdraw
HasId-withdraw k id [] h = h
HasId-withdraw k id (x ∷ q) h = elim (eq-cases x.order_id id) [
  | inl here ↦
      let e : withdraw id (x ∷ q) ≡ q = ground (arith, here) in
      inr (subst (λ (r : List Entry). HasId k r) e h)
  | inr away ↦
      let e : withdraw id (x ∷ q) ≡ x ∷ withdraw id q = ground (arith, away) in
      later (HasId-withdraw k id q) (subst (λ (r : List Entry). HasId k r) e h)
]
  where
    later : (HasId k (withdraw id q) → HasId k q) → HasId k (x ∷ withdraw id q) → HasId k (x ∷ q)
    later rest (inl is) = inl is
    later rest (inr h) = inr (rest h)

-- Of orders with ids of their own, none of the id withdrawn is left.
withdraw-gone :
    (c : Clob) (id : ℕ) (q : List ℕ)
    → IsNodup q
    → ((i j : ℕ) → Elem i q → Elem j q → (order_at c i).order_id ≡ (order_at c j).order_id → i ≡ j)
    → ¬ HasId id (withdraw id (entries c q))
unfolding withdraw
withdraw-gone c id [] d apart h = h
withdraw-gone c id (x ∷ q) d apart h = elim (eq-cases (order_at c x).order_id id) [
  | inl here ↦
      let e : withdraw id (entries c (x ∷ q)) ≡ entries c q = ground (arith, here) in
      let (j, m, is) = Elem-of_id c id q (subst (λ (r : List Entry). HasId id r) e h) in
      let same : x ≡ j = apart x j (inl refl) (inr m) (here ∙ sym is) in
      d.0 (subst (λ (k : ℕ). Elem k q) (sym same) m)
  | inr away ↦
      let rest = withdraw-gone c id q d.1 (λ i j m n. apart i j (inr m) (inr n)) in
      let e : withdraw id (entries c (x ∷ q)) ≡ entries c (x ∷ []) ++ withdraw id (entries c q) =
        ground (arith, away) in
      later away rest (subst (λ (r : List Entry). HasId id r) e h)
]
  where
    later :
        (order_at c x).order_id ≢ id
        → (¬ HasId id (withdraw id (entries c q)))
        → HasId id (entries c (x ∷ []) ++ withdraw id (entries c q))
        → ⊥
    later away rest (inl is) = away is
    later away rest (inr h) = rest h

-- What rests once an order waits behind the others of its side and price.
pub IsResting-added :
    {c c' : Clob} {v : View} (id : ℕ) (side : Side) (price qty : ℕ)
    → SameRange c c'
    → (k : ℕ)
    → IsResting c'
        (requeue v side price (v side price ++ record { order_id = id; qty = qty } ∷ []))
        k
    → (k ≡ id) ⊎ IsResting c v k
IsResting-added {c} {c'} {v} id side price qty same k w =
    let new : List Entry = v side price ++ record { order_id = id; qty = qty } ∷ [] in
    let range : InRange c w.price =
      (omega (arith, w.price_in, same.0), omega (arith, w.price_in, same.1)) in
    elim (spot_cases w.side side w.price price) [
      | inl (es, ep) ↦
          let there : HasId k new =
            subst (λ (q : List Entry). HasId k q) (requeue_here v side price new)
              (subst₂ (λ (s : Side) (p : ℕ). HasId k (requeue v side price new s p)) es ep
                w.waits) in
          elim (HasId-snoc k (v side price) (record { order_id = id; qty = qty }) there) [
            | inl is ↦ inl is
            | inr old ↦ inr (record {
              side = side;
              price = price;
              price_in = subst (InRange c) ep range;
              waits = old;
            })
          ]
      | inr away ↦ inr (record {
        side = w.side;
        price = w.price;
        price_in = range;
        waits =
            subst (λ (q : List Entry). HasId k q)
              (requeue_away v side price new w.side w.price away) w.waits;
      })
    ]

module _ (max_orders : ℕ) (hash : ℕ → ℕ) (cap : IsCapacity (2 * max_orders)) where
  -- A well-formed book after a step: of the same range of prices, and in which the orders that rest
  -- are as `Allowed` says.
  pub record After (c : Clob) (Allowed : ℕ → Type 0) (c' : Clob) : Type 0 where
    pub view : View
    pub stored : Represents max_orders hash cap c' view
    pub range : SameRange c c'
    pub resting : (id : ℕ) → IsResting c' view id → Allowed id

  pub add_order-After :
      {c : Clob} {v : View} (id : ℕ) (side : Side) (price qty : ℕ)
      → IsId id
      → Represents max_orders hash cap c v
      → qty < 2 ^ 64
      → After c (λ k. (k ≡ id) ⊎ IsResting c v k) (add_order max_orders hash c id side price qty).1
  add_order-After {c} {v} id side price qty nonzero r word = elim (eq-cases qty 0) [
    | inl nothing ↦ refused (inl nothing)
    | inr some_qty ↦ elim (Bool-cases (valid_price c price)) [
      | inr out ↦ refused (inr (inl (λ i. ground (arith, out, valid_price-true c price i))))
      | inl fine ↦ elim (eq-cases c.pool.top 0) [
        | inl used_up ↦ refused (inr (inr (inl used_up)))
        | inr some_free ↦ elim (Option-cases (lookup max_orders hash cap c id)) [
          | inr (i, present) ↦ refused (inr (inr (inr (i, present))))
          | inl absent ↦
              let range : InRange c price = (ground (arith, fine), ground (arith, fine)) in
              let (c', is, same, stored) =
                add_order_accepts max_orders hash cap id side price qty nonzero r range
                  (omega (arith, some_qty)) word absent some_free in
              subst (After c (λ k. (k ≡ id) ⊎ IsResting c v k))
                (sym (ap (λ (p : Bool × Clob). p.1) is))
                (record {
                  view = _;
                  stored = stored;
                  range = same;
                  resting = IsResting-added id side price qty same;
                })
        ]
      ]
    ]
  ]
    where
      refused :
          (qty ≡ 0)
            ⊎ (¬ InRange c price)
            ⊎ (c.pool.top ≡ 0)
            ⊎ ((i : ℕ) × (lookup max_orders hash cap c id ≡ some i))
          → After c
              (λ k. (k ≡ id) ⊎ IsResting c v k)
              (add_order max_orders hash c id side price qty).1
      refused why =
          subst (After c (λ k. (k ≡ id) ⊎ IsResting c v k))
            (sym (
              ap (λ (p : Bool × Clob). p.1)
                (add_order_refuses max_orders hash cap id side price qty r why)))
            (record { view = v; stored = r; range = (refl, refl); resting = λ k w. inr w })

  pub cancel_order-After :
      {c : Clob} {v : View} (id : ℕ)
      → Represents max_orders hash cap c v
      → After c (λ k. IsResting c v k × (k ≢ id)) (cancel_order max_orders hash c id).1
  unfolding Index.contains
  cancel_order-After {c} {v} id r = elim (Option-cases (lookup max_orders hash cap c id)) [
    | inl missing ↦
        let away : ¬ IsResting c v id = λ w.
          let there = (contains-IsResting max_orders hash cap id r).1 w in
          ground (arith, there, missing) in
        subst (After c (λ k. IsResting c v k × (k ≢ id)))
          (sym (ap (λ (p : Bool × Clob). p.1) (cancel_order_refuses max_orders hash cap id r away)))
          (record {
            view = v;
            stored = r;
            range = (refl, refl);
            resting = λ k w. (w, λ e. away (subst (IsResting c v) e w));
          })
    | inr (idx, found) ↦
        let (c', is, same, stored) = cancel_order_accepts max_orders hash cap id idx r found in
        subst (After c (λ k. IsResting c v k × (k ≢ id))) (sym (ap (λ (p : Bool × Clob). p.1) is))
          (record {
            view = λ s p. withdraw id (v s p);
            stored = stored;
            range = same;
            resting = λ k w. was c' same k w;
          })
  ]
    where
      was :
          (c' : Clob)
          → SameRange c c'
          → (k : ℕ) → IsResting c' (λ s p. withdraw id (v s p)) k
          → IsResting c v k × (k ≢ id)
      was c' same k w =
          let range : InRange c w.price =
            (omega (arith, w.price_in, same.0), omega (arith, w.price_in, same.1)) in
          let own = r.book.core.queues w.side w.price range in
          (
            record {
              side = w.side;
              price = w.price;
              price_in = range;
              waits = HasId-withdraw k id (v w.side w.price) w.waits;
            },
            λ e.
                withdraw-gone c id (r.queues w.side w.price) own.nodup
                  (λ i j m n.
                    same_order max_orders hash cap i j (own.members i m) (own.members j n))
                  (subst (λ (q : List Entry). HasId id (withdraw id q))
                    (r.shows w.side w.price range)
                    (subst (λ (j : ℕ). HasId j (withdraw id (v w.side w.price))) e w.waits)),
          )
