-- ===== src/Clob/Cancel.antt =====
-- `cancel_order` of src/fixed_clob.hpp against the abstract book.
use mathlib.Core.Path.{subst, subst₂}
use lowlat_matching_engine.Common.{
  ℕ, ◌*◌, ◌≡◌, ◌≢◌, ◌↔◌, refl, sym, ap, ◌∙◌, ◌⊎◌, inl, inr, arith, some, List, [], ◌∷◌, ◌++◌, true,
  false, Option-cases,
}
use lowlat_matching_engine.Types.{Side}
use lowlat_matching_engine.Index
use lowlat_matching_engine.Index.{IsId}
use lowlat_matching_engine.Index.Probing.{IsCapacity}
use lowlat_matching_engine.Clob.{Clob, order_at, cancel_order, remove_order_by_index}
use lowlat_matching_engine.Clob.Queues.{Elem, Elem-left, Elem-right, Elem-outer, middle_apart}
use lowlat_matching_engine.Clob.Invariant.{
  SameRange, requeue, InRange, Member, IsQueue, requeue_here, requeue_away, spot_cases,
}
use lowlat_matching_engine.Clob.Removal.{Removed}
use lowlat_matching_engine.Clob.Removal.Whole.{remove_order_lem}
use lowlat_matching_engine.Clob.View.{
  Entry, View, withdraw, entries, entries_congr, withdraw_middle, withdraw_absent, Represents,
  Represents_congr,
}
use lowlat_matching_engine.Clob.Requests.{lookup}

-- An order of a given id waits in a queue.
abbrev pub HasId : ℕ → List Entry → Type 0
HasId order_id [] = ⊥
HasId order_id (e ∷ q) = (e.order_id ≡ order_id) ⊎ HasId order_id q

-- An order of a given id waits in the abstract book, at a price of the book.
pub record IsResting (c : Clob) (v : View) (order_id : ℕ) : Type 0 where
  pub side : Side
  pub price : ℕ
  pub price_in : InRange c price
  pub waits : HasId order_id (v side price)

HasId-entries :
    (c : Clob) (i : ℕ) (q : List ℕ) → Elem i q → HasId (order_at c i).order_id (entries c q)
HasId-entries c i [] e = absurd e
HasId-entries c i (x ∷ q) (inl e) = inl (ap (λ (j : ℕ). (order_at c j).order_id) (sym e))
HasId-entries c i (x ∷ q) (inr e) = inr (HasId-entries c i q e)

pub Elem-of_id :
    (c : Clob) (k : ℕ) (q : List ℕ)
    → HasId k (entries c q)
    → (i : ℕ) × Elem i q × ((order_at c i).order_id ≡ k)
Elem-of_id c k [] h = absurd h
Elem-of_id c k (x ∷ q) (inl e) = (x, inl refl, e)
Elem-of_id c k (x ∷ q) (inr h) = let (i, e, s) = Elem-of_id c k q h in (i, inr e, s)

module _ (max_orders : ℕ) (hash : ℕ → ℕ) (cap : IsCapacity (2 * max_orders)) where
  -- Two waiting orders of one id are one order.
  pub same_order :
      {c : Clob} {s side : Side} {p price : ℕ} (i j : ℕ)
      → Member max_orders hash c s p i
      → Member max_orders hash c side price j
      → (order_at c i).order_id ≡ (order_at c j).order_id
      → i ≡ j
  same_order {c} i j m n e =
      let f = sym m.indexed ∙ ap (lookup max_orders hash cap c) e ∙ n.indexed in ground (arith, f)

  module _ {c c' : Clob} {v : View} {idx : ℕ} {side : Side} {price : ℕ}
      (r : Represents max_orders hash cap c v) (range : InRange c price)
      (gone : Removed max_orders hash cap c r.queues idx side price c') where
    abbrev key : ℕ
    key = (order_at c idx).order_id

    abbrev left : List ℕ
    left = gone.before ++ gone.behind

    own : IsQueue max_orders hash c side price (gone.before ++ idx ∷ gone.behind)
    own =
        subst (λ (q : List ℕ). IsQueue max_orders hash c side price q) gone.whole
          (r.book.core.queues side price range)

    self : Member max_orders hash c side price idx
    self = own.members idx (Elem-right idx gone.before (idx ∷ gone.behind) (inl refl))

    others : (j : ℕ) → Elem j left → j ≢ idx
    others j e same =
        middle_apart idx gone.before gone.behind own.nodup (subst (λ (k : ℕ). Elem k left) same e)

    here : withdraw key (v side price) ≡ entries c' left
    here =
        ap (withdraw key) (r.shows side price range ∙ ap (entries c) gone.whole)
        ∙ withdraw_middle c key idx gone.before gone.behind
            (λ j e same. others j (Elem-left j gone.before gone.behind e) (
              same_order j idx (own.members j (Elem-left j gone.before (idx ∷ gone.behind) e)) self
                same))
            refl
        ∙ sym (
            entries_congr c c' left (λ j e.
              gone.kept side price j range
                (subst (Elem j) (sym gone.whole) (Elem-outer j idx gone.before gone.behind e))
                (others j e)))

    -- The book without the order stores the abstract book without it.
    pub Represents-removed :
        Represents max_orders hash cap c' (requeue v side price (withdraw key (v side price)))
    Represents-removed = record {
      queues = requeue r.queues side price left;
      book = gone.book;
      shows = λ s p i'.
          let i : InRange c p =
            (omega (arith, gone.min_price, i'.0), omega (arith, gone.max_price, i'.1)) in
          elim (spot_cases s side p price) [
            | inl (es, ep) ↦
                subst₂
                  (λ (s : Side) (p : ℕ).
                    requeue v side price (withdraw key (v side price)) s p
                    ≡ entries c' (requeue r.queues side price left s p))
                  (sym es) (sym ep)
                  (requeue_here v side price _
                    ∙ here
                    ∙ ap (entries c') (sym (requeue_here r.queues side price left)))
            | inr away ↦
                requeue_away v side price _ s p away
                ∙ r.shows s p i
                ∙ sym (
                    entries_congr c c' (r.queues s p)
                      (λ j e. gone.kept s p j i e (λ same. wrong s p j away i e same)))
                ∙ ap (entries c') (sym (requeue_away r.queues side price left s p away))
          ];
    }
      where
        wrong :
            (s : Side) (p j : ℕ)
            → (s ≡ side → p ≢ price)
            → InRange c p
            → Elem j (r.queues s p)
            → j ≡ idx
            → ⊥
        wrong s p j away i e same =
            let m = (r.book.core.queues s p i).members j e in
            away (sym m.side_is ∙ ap (λ (k : ℕ). (order_at c k).side) same ∙ self.side_is)
              (sym m.price_is ∙ ap (λ (k : ℕ). (order_at c k).price) same ∙ self.price_is)

  -- The index of the model answers as the queues do, for 0 too.
  pub contains-IsResting :
      {c : Clob} {v : View} (order_id : ℕ)
      → Represents max_orders hash cap c v
      → (Index.contains (2 * max_orders) hash c.order_lookup order_id ≡ true)
        ↔ IsResting c v order_id
  unfolding Index.contains
  contains-IsResting {c} {v} order_id r = (found, waiting)
    where
      found :
          Index.contains (2 * max_orders) hash c.order_lookup order_id ≡ true
          → IsResting c v order_id
      found h = elim (Option-cases (lookup max_orders hash cap c order_id)) [
        | inl missing ↦ ground (arith, h, missing)
        | inr (i, present) ↦
            let l = r.book.core.listed order_id i present in
            record {
              side = (order_at c i).side;
              price = (order_at c i).price;
              price_in = l.price_in;
              waits =
                  subst (λ (q : List Entry). HasId order_id q) (sym (r.shows _ _ l.price_in))
                    (subst
                      (λ (k : ℕ).
                        HasId k (entries c (r.queues (order_at c i).side (order_at c i).price)))
                      l.id_is (HasId-entries c i _ l.waits));
            }
      ]

      waiting :
          IsResting c v order_id
          → Index.contains (2 * max_orders) hash c.order_lookup order_id ≡ true
      waiting w =
          let (i, e, s) = Elem-of_id c order_id (r.queues w.side w.price) (
            subst (λ (q : List Entry). HasId order_id q) (r.shows w.side w.price w.price_in)
              w.waits) in
          let m = (r.book.core.queues w.side w.price w.price_in).members i e in
          let f = sym (ap (lookup max_orders hash cap c) s) ∙ m.indexed in ground (arith, f)

  -- In a well-formed book the index contains an id other than 0 exactly when an order of that id
  -- waits at some side and price in range.
  pub lookup-IsResting :
      {c : Clob} {v : View} (order_id : ℕ)
      → IsId order_id
      → Represents max_orders hash cap c v
      → (Index.contains (2 * max_orders) hash c.order_lookup order_id ≡ true)
        ↔ IsResting c v order_id
  lookup-IsResting order_id id = contains-IsResting order_id

  -- Cancelling an order that the index of a well-formed book knows is accepted, takes it out of
  -- its queue and changes no other queue; the book is well formed.
  pub cancel_order_accepts :
      {c : Clob} {v : View} (order_id idx : ℕ)
      → Represents max_orders hash cap c v
      → lookup max_orders hash cap c order_id ≡ some idx
      → (c' : Clob) × (cancel_order max_orders hash c order_id ≡ (true, c'))
        × SameRange c c'
        × Represents max_orders hash cap c' (λ s p. withdraw order_id (v s p))
  unfolding cancel_order
  cancel_order_accepts {c} {v} order_id idx r found =
      let l = r.book.core.listed order_id idx found in
      let gone = remove_order_lem max_orders hash cap c r.queues idx r.book l.price_in l.waits in
      let c' = remove_order_by_index max_orders hash c idx in
      let side = (order_at c idx).side in
      let price = (order_at c idx).price in
      let self = (r.book.core.queues side price l.price_in).members idx l.waits in
      (
        c',
        ground (arith, found),
        (gone.min_price, gone.max_price),
        Represents_congr max_orders hash cap c'
            (requeue v side price (withdraw (order_at c idx).order_id (v side price)))
            (λ s p. withdraw order_id (v s p))
            (λ s p i'.
              let i : InRange c p =
                (omega (arith, gone.min_price, i'.0), omega (arith, gone.max_price, i'.1)) in
              elim (spot_cases s side p price) [
                | inl (es, ep) ↦
                    subst₂
                      (λ (s : Side) (p : ℕ).
                        withdraw order_id (v s p)
                        ≡ requeue v side price (withdraw (order_at c idx).order_id (v side price)) s
                            p)
                      (sym es) (sym ep)
                      (ap (λ (k : ℕ). withdraw k (v side price)) (sym l.id_is)
                        ∙ sym (requeue_here v side price _))
                | inr away ↦
                    ap (withdraw order_id) (r.shows s p i)
                    ∙ withdraw_absent c order_id (r.queues s p) (λ j e k.
                      let m = (r.book.core.queues s p i).members j e in
                      let same = same_order j idx m self (k ∙ sym l.id_is) in
                      away (sym m.side_is ∙ ap (λ (k : ℕ). (order_at c k).side) same)
                        (sym m.price_is ∙ ap (λ (k : ℕ). (order_at c k).price) same))
                    ∙ sym (r.shows s p i)
                    ∙ sym (requeue_away v side price _ s p away)
              ])
            (Represents-removed r l.price_in gone),
      )

  -- Cancelling an order that does not rest in a well-formed book is refused, and the book is as it
  -- was.
  pub cancel_order_refuses :
      {c : Clob} {v : View} (order_id : ℕ)
      → Represents max_orders hash cap c v
      → (¬ IsResting c v order_id)
      → cancel_order max_orders hash c order_id ≡ (false, c)
  unfolding cancel_order Index.contains
  cancel_order_refuses {c} order_id r away =
      elim (Option-cases (lookup max_orders hash cap c order_id)) [
        | inl missing ↦ ground (arith, missing)
        | inr (i, present) ↦
            absurd (away ((contains-IsResting order_id r).0 (ground (arith, present))))
      ]
