-- ===== src/Clob/Invariant.antt =====
-- What makes a book of src/fixed_clob.hpp well formed. The ghost `Queues` says which pool indices
-- wait at each side and price, oldest first.
use lowlat_matching_engine.Common.{
  ℕ, ◌-◌, ◌+◌, ◌*◌, ◌%◌, ◌^◌, ◌≤◌, ◌<◌, ◌≡◌, ◌≢◌, sym, ap, ◌∙◌, arith, Option, none, some, true,
  false, Bool, List, [], ◌∷◌, length, ◌&&◌, ◌==◌, if◌then◌else◌, refl, ◌⊎◌, inl, inr, eq-cases,
}
use lowlat_matching_engine.Types.{Side, buy, sell, Order, PriceLevel, null_order_index}
use lowlat_matching_engine.Pool
use lowlat_matching_engine.Pool.Laws.{IsFree}
use lowlat_matching_engine.Index
use lowlat_matching_engine.Index.{IsId}
use lowlat_matching_engine.Index.Probing.{IsCapacity}
use lowlat_matching_engine.Index.Search
use lowlat_matching_engine.Clob.{Clob, level, order_at, index}
use lowlat_matching_engine.Clob.Queues.{Elem, IsNodup, first, last_from, Linked, total}
use lowlat_matching_engine.Clob.Links.{Linked-congr, total_congr, last_from-Elem}

abbrev pub Queues : Type 0
Queues = Side → ℕ → List ℕ

abbrev pub same_side : Side → Side → Bool
same_side buy buy = true
same_side sell sell = true
same_side _ _ = false

-- What stands at each side and price, with `x` at `side` and `price`.
abbrev pub requeue : {A : Type 0} → (Side → ℕ → A) → Side → ℕ → A → Side → ℕ → A
requeue b side price x s p = if same_side s side && p == price then x else b s p

-- `valid_price`, as a proposition.
abbrev pub InRange : Clob → ℕ → Type 0
InRange c price = (c.min_price ≤ price) × (price ≤ c.max_price)

-- Both books are of one range of prices, which no operation changes.
abbrev pub SameRange : Clob → Clob → Type 0
SameRange c c' = (c'.min_price ≡ c.min_price) × (c'.max_price ≡ c.max_price)

-- `p` is a better price than `b` for the orders of a side.
abbrev pub Better : Side → ℕ → ℕ → Type 0
Better buy p b = b < p
Better sell p b = p < b

-- `best` is the best price at which the queues of a side are not empty, if there is one.
abbrev pub IsBest : ℕ → ℕ → Side → (ℕ → List ℕ) → Option ℕ → Type 0
IsBest lo hi side q none = (p : ℕ) → lo ≤ p → p ≤ hi → q p ≡ []
IsBest lo hi side q (some b) =
    (lo ≤ b) × (b ≤ hi) × (q b ≢ []) × ((p : ℕ) → lo ≤ p → p ≤ hi → Better side p b → q p ≡ [])

-- A member that keeps its order, up to the links.
pub record SameOrder (c c' : Clob) (i : ℕ) : Type 0 where
  pub order_id : (order_at c' i).order_id ≡ (order_at c i).order_id
  pub price : (order_at c' i).price ≡ (order_at c i).price
  pub qty : (order_at c' i).qty ≡ (order_at c i).qty
  pub side : (order_at c' i).side ≡ (order_at c i).side

-- Where the index leads: only from ids that its assertions allow.
pub record Listed (c : Clob) (b : Queues) (order_id i : ℕ) : Type 0 where
  pub nonzero : IsId order_id
  pub id_is : (order_at c i).order_id ≡ order_id
  pub price_in : InRange c (order_at c i).price
  pub waits : Elem i (b (order_at c i).side (order_at c i).price)

module _ (max_orders : ℕ) (hash : ℕ → ℕ) where
  -- The order with index `i` rests at `side` and `price`.
  pub record Member (c : Clob) (side : Side) (price i : ℕ) : Type 0 where
    pub in_range : i < max_orders
    pub side_is : (order_at c i).side ≡ side
    pub price_is : (order_at c i).price ≡ price
    pub qty_pos : 0 < (order_at c i).qty
    pub qty_word : (order_at c i).qty < 2 ^ 64
    pub busy : ¬ IsFree c.pool i
    pub indexed : Index.find (2 * max_orders) hash c.order_lookup (order_at c i).order_id ≡ some i

  -- The level at `side` and `price` stores the queue `q`. Its total wraps at 2 ^ 64.
  pub record IsQueue (c : Clob) (side : Side) (price : ℕ) (q : List ℕ) : Type 0 where
    pub linked : Linked c.pool.orders null_order_index q
    pub nodup : IsNodup q
    pub members : (i : ℕ) → Elem i q → Member c side price i
    pub head : (level c side price).head_idx ≡ first q
    pub tail : (level c side price).tail_idx ≡ last_from null_order_index q
    pub count : (level c side price).order_count ≡ length q
    pub quantity : (level c side price).total_qty ≡ total c.pool.orders q % 2 ^ 64

  -- All of the invariant but the best prices. `spans` keeps `range_size`, the number of levels of a
  -- side, from wrapping to 0.
  pub record IsCore (cap : IsCapacity (2 * max_orders)) (c : Clob) (b : Queues) : Type 0 where
    pub range : c.min_price ≤ c.max_price
    pub word : c.max_price < 2 ^ 64
    pub spans : c.max_price - c.min_price + 1 < 2 ^ 64
    pub pool : Pool.Laws.IsValid max_orders c.pool
    pub table : Index.Search.IsValid (2 * max_orders) hash cap c.order_lookup
    pub queues : (s : Side) (p : ℕ) → InRange c p → IsQueue c s p (b s p)
    pub listed :
        (order_id i : ℕ)
        → Index.find (2 * max_orders) hash c.order_lookup order_id ≡ some i
        → Listed c b order_id i
    pub sized : c.order_lookup.size + c.pool.top ≡ max_orders

  -- The invariant of a book.
  pub record IsBook (cap : IsCapacity (2 * max_orders)) (c : Clob) (b : Queues) : Type 0 where
    pub core : IsCore cap c b
    pub bids : IsBest c.min_price c.max_price buy (b buy) c.best_bid
    pub asks : IsBest c.min_price c.max_price sell (b sell) c.best_ask

  -- A queue whose level and orders an operation leaves alone.
  pub IsQueue-frame :
      (c c' : Clob) (s : Side) (p : ℕ) (q : List ℕ)
      → level c' s p ≡ level c s p
      → ((j : ℕ) → Elem j q → order_at c' j ≡ order_at c j)
      → ((j : ℕ) → Elem j q → Member c' s p j)
      → IsQueue c s p q
      → IsQueue c' s p q
  IsQueue-frame c c' s p q lvl orders members old = record {
    linked =
        Linked-congr c.pool.orders c'.pool.orders null_order_index q
          (λ i e. (
            ap (λ (o : Order). o.prev_idx) (orders i e),
            ap (λ (o : Order). o.next_idx) (orders i e),
          ))
          old.linked;
    nodup = old.nodup;
    members = members;
    head = ap (λ (l : PriceLevel). l.head_idx) lvl ∙ old.head;
    tail = ap (λ (l : PriceLevel). l.tail_idx) lvl ∙ old.tail;
    count = ap (λ (l : PriceLevel). l.order_count) lvl ∙ old.count;
    quantity =
        ap (λ (l : PriceLevel). l.total_qty) lvl
        ∙ old.quantity
        ∙ ap (λ (n : ℕ). n % 2 ^ 64)
            (sym (
              total_congr c.pool.orders c'.pool.orders q
                (λ i e. ap (λ (o : Order). o.qty) (orders i e))));
  }

  pub Member-frame :
      (c c' : Clob) (s : Side) (p i : ℕ)
      → SameOrder c c' i
      → (¬ IsFree c'.pool i)
      → Index.find (2 * max_orders) hash c'.order_lookup (order_at c i).order_id ≡ some i
      → Member c s p i
      → Member c' s p i
  Member-frame c c' s p i same busy indexed old = record {
    in_range = old.in_range;
    side_is = same.side ∙ old.side_is;
    price_is = same.price ∙ old.price_is;
    qty_pos = omega (arith, same.qty, old.qty_pos);
    qty_word = omega (arith, same.qty, old.qty_word);
    busy = busy;
    indexed =
        ap (λ (k : ℕ). Index.find (2 * max_orders) hash c'.order_lookup k) same.order_id ∙ indexed;
  }

  -- Orders of two queues with a common member are of one side and one price.
  pub Member-apart :
      (c : Clob) (s side : Side) (p price i : ℕ)
      → Member c s p i
      → Member c side price i
      → (s ≡ side) × (p ≡ price)
  Member-apart c s side p price i m n = (sym m.side_is ∙ n.side_is, sym m.price_is ∙ n.price_is)

  pub Member-ne_null :
      (c : Clob) (s : Side) (p i : ℕ) → max_orders < 2 ^ 32 → Member c s p i → i ≢ null_order_index
  Member-ne_null c s p i small m e = omega (arith, m.in_range)

pub spot_cases : (s side : Side) (p price : ℕ) → ((s ≡ side) × (p ≡ price)) ⊎ (s ≡ side → p ≢ price)
spot_cases buy buy p price = elim (eq-cases p price) [
  | inl e ↦ inl (refl, e)
  | inr ne ↦ inr (λ _. ne)
]
spot_cases sell sell p price = elim (eq-cases p price) [
  | inl e ↦ inl (refl, e)
  | inr ne ↦ inr (λ _. ne)
]
spot_cases buy sell p price = inr (λ e. ground (arith, e))
spot_cases sell buy p price = inr (λ e. ground (arith, e))

module _ {A : Type 0} (b : Side → ℕ → A) where
  pub requeue_here : (side : Side) (price : ℕ) (x : A) → requeue b side price x side price ≡ x
  requeue_here buy price x = ground arith
  requeue_here sell price x = ground arith

  pub requeue_away :
      (side : Side) (price : ℕ) (x : A) (s : Side) (p : ℕ)
      → (s ≡ side → p ≢ price)
      → requeue b side price x s p ≡ b s p
  requeue_away buy price x buy p away = let ne = away refl in ground (arith, ne)
  requeue_away sell price x sell p away = let ne = away refl in ground (arith, ne)
  requeue_away buy price x sell p away = refl
  requeue_away sell price x buy p away = refl

pub IsBest-congr :
    (lo hi : ℕ) (side : Side) (q q' : ℕ → List ℕ) (b : Option ℕ)
    → ((p : ℕ) → q' p ≡ q p)
    → IsBest lo hi side q b
    → IsBest lo hi side q' b
IsBest-congr lo hi side q q' none same old = λ p l h. same p ∙ old p l h
IsBest-congr lo hi side q q' (some b) same old =
    (old.0, old.1, (λ e. old.2 (sym (same b) ∙ e)), λ p l h better. same p ∙ old.3 p l h better)

-- Prices in range have different cells.
pub index_apart :
    (c : Clob) (p price : ℕ)
    → InRange c p
    → InRange c price
    → c.max_price < 2 ^ 64
    → p ≢ price
    → index c p ≢ index c price
index_apart c p price i j word ne e = ne (omega (arith, i.0, i.1, j.0, j.1, word, e))

pub IsFree_congr :
    (p p' : Pool.Pool) (i : ℕ)
    → p'.free_stack ≡ p.free_stack
    → p'.top ≡ p.top
    → IsFree p' i
    → IsFree p i
IsFree_congr p p' i stack top f =
    (f.0, omega (arith, f.1), sym (ap (λ (s : ℕ → ℕ). s f.0) stack) ∙ f.2)

pub last_cases : (q : List ℕ) → (q ≡ []) ⊎ Elem (last_from null_order_index q) q
last_cases [] = inl refl
last_cases (x ∷ q) = inr (last_from-Elem x q)

pub same_fields : (p p' : Pool.Pool) → p' ≡ p → (p'.free_stack ≡ p.free_stack) × (p'.top ≡ p.top)
same_fields p p' e = (ap (λ (q : Pool.Pool). q.free_stack) e, ap (λ (q : Pool.Pool). q.top) e)

-- The best price stays where a queue keeps some order.
pub IsBest-still :
    (lo hi : ℕ) (side : Side) (q q' : ℕ → List ℕ) (b : Option ℕ) (price : ℕ)
    → lo ≤ price
    → price ≤ hi
    → IsBest lo hi side q b
    → q price ≢ []
    → q' price ≢ []
    → ((p : ℕ) → p ≢ price → q' p ≡ q p)
    → IsBest lo hi side q' b
IsBest-still lo hi side q q' none price l h old full full' same = absurd (full (old price l h))
IsBest-still lo hi side q q' (some b) price l h old full full' same = (
  old.0,
  old.1,
  (λ e. elim (eq-cases b price) [
    | inl s ↦ full' (sym (ap q' s) ∙ e)
    | inr ne ↦ old.2 (sym (same b ne) ∙ e)
  ]),
  λ p lp hp better. elim (eq-cases p price) [
    | inl s ↦ absurd (full (sym (ap q s) ∙ old.3 p lp hp better))
    | inr ne ↦ same p ne ∙ old.3 p lp hp better
  ],
)
