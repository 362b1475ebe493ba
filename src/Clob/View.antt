-- ===== src/Clob/View.antt =====
-- The abstract book: for each side and price the orders that wait, oldest first, as their ids and
-- quantities. How src/fixed_clob.hpp stores it is `Represents`.
use lowlat_matching_engine.Common.{
  ℕ, suc, ◌+◌, ◌-◌, ◌*◌, ◌≡◌, ◌≢◌, refl, ap, ◌∙◌, inl, inr, arith, List, [], ◌∷◌, ◌++◌, length,
  ◌==◌, if◌then◌else◌, ltb,
}
use lowlat_matching_engine.Types.{Side, Execution}
use lowlat_matching_engine.Index.Probing.{IsCapacity}
use lowlat_matching_engine.Clob.{Clob, order_at}
use lowlat_matching_engine.Clob.Queues.{Elem, total}
use lowlat_matching_engine.Clob.Invariant.{Queues, InRange, IsBook, SameOrder}

pub record Entry : Type 0 where
  pub order_id : ℕ
  pub qty : ℕ

abbrev pub View : Type 0
View = Side → ℕ → List Entry

-- The queue without its first order of a given id.
unfoldable pub withdraw : ℕ → List Entry → List Entry
withdraw order_id [] = []
withdraw order_id (e ∷ q) = if e.order_id == order_id then q else e ∷ withdraw order_id q

-- What an incoming quantity does to the queue at a price: what is left of it, the queue that
-- remains, and the trades, oldest order first.
pub record Filled : Type 0 where
  pub left : ℕ
  pub queue : List Entry
  pub trades : List Execution

abbrev pub trade : ℕ → ℕ → ℕ → ℕ → Execution
trade incoming_order_id resting_order_id price qty = record {
  incoming_order_id = incoming_order_id;
  resting_order_id = resting_order_id;
  price = price;
  qty = qty;
}

unfoldable pub consume : ℕ → ℕ → ℕ → List Entry → Filled
consume incoming_order_id price qty [] = record { left = qty; queue = []; trades = [] }
consume incoming_order_id price qty (e ∷ q) =
    if qty == 0
    then record { left = 0; queue = e ∷ q; trades = [] }
    else if ltb qty e.qty
    then record {
      left = 0;
      queue = record e { qty = e.qty - qty } ∷ q;
      trades = trade incoming_order_id e.order_id price qty ∷ [];
    }
    else (let rest = consume incoming_order_id price (qty - e.qty) q in
        record rest { trades = trade incoming_order_id e.order_id price e.qty ∷ rest.trades })

abbrev pub quantities : List Entry → ℕ
quantities [] = 0
quantities (e ∷ q) = e.qty + quantities q

abbrev pub entry : Clob → ℕ → Entry
entry c i = record { order_id = (order_at c i).order_id; qty = (order_at c i).qty }

abbrev pub entries : Clob → List ℕ → List Entry
entries c [] = []
entries c (i ∷ q) = entry c i ∷ entries c q

pub entries_congr :
    (c c' : Clob) (q : List ℕ)
    → ((i : ℕ) → Elem i q → SameOrder c c' i)
    → entries c' q ≡ entries c q
entries_congr c c' [] same = refl
entries_congr c c' (x ∷ q) same =
    let s = same x (inl refl) in
    let rest = entries_congr c c' q (λ i e. same i (inr e)) in cc (s.order_id, s.qty, rest)

pub entries-append :
    (c : Clob) (xs ys : List ℕ) → entries c (xs ++ ys) ≡ entries c xs ++ entries c ys
entries-append c [] ys = refl
entries-append c (x ∷ xs) ys = ap (λ (r : List Entry). entry c x ∷ r) (entries-append c xs ys)

pub length-entries : (c : Clob) (q : List ℕ) → length (entries c q) ≡ length q
length-entries c [] = refl
length-entries c (x ∷ q) = ap suc (length-entries c q)

pub quantities-entries : (c : Clob) (q : List ℕ) → quantities (entries c q) ≡ total c.pool.orders q
quantities-entries c [] = refl
quantities-entries c (x ∷ q) = omega (arith, quantities-entries c q)

pub withdraw_middle :
    (c : Clob) (order_id i : ℕ) (xs ys : List ℕ)
    → ((j : ℕ) → Elem j xs → (order_at c j).order_id ≢ order_id)
    → (order_at c i).order_id ≡ order_id
    → withdraw order_id (entries c (xs ++ i ∷ ys)) ≡ entries c (xs ++ ys)
unfolding withdraw
withdraw_middle c order_id i [] ys apart e = ground (arith, e)
withdraw_middle c order_id i (x ∷ xs) ys apart e =
    let ne = apart x (inl refl) in
    let rest = withdraw_middle c order_id i xs ys (λ j m. apart j (inr m)) e in
    ground (arith, ne, rest)

pub withdraw_absent :
    (c : Clob) (order_id : ℕ) (q : List ℕ)
    → ((j : ℕ) → Elem j q → (order_at c j).order_id ≢ order_id)
    → withdraw order_id (entries c q) ≡ entries c q
unfolding withdraw
withdraw_absent c order_id [] apart = refl
withdraw_absent c order_id (x ∷ q) apart =
    let ne = apart x (inl refl) in
    let rest = withdraw_absent c order_id q (λ j m. apart j (inr m)) in ground (arith, ne, rest)

module _ (max_orders : ℕ) (hash : ℕ → ℕ) (cap : IsCapacity (2 * max_orders)) where
  -- The book `c` is well formed and stores the abstract book `v`.
  pub record Represents (c : Clob) (v : View) : Type 0 where
    pub queues : Queues
    pub book : IsBook max_orders hash cap c queues
    pub shows : (s : Side) (p : ℕ) → InRange c p → v s p ≡ entries c (queues s p)

  pub Represents_congr :
      (c : Clob) (v v' : View)
      → ((s : Side) (p : ℕ) → InRange c p → v' s p ≡ v s p)
      → Represents c v
      → Represents c v'
  Represents_congr c v v' same r = record {
    queues = r.queues;
    book = r.book;
    shows = λ s p i. same s p i ∙ r.shows s p i;
  }
