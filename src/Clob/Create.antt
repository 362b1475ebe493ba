-- ===== src/Clob/Create.antt =====
-- The constructor of src/fixed_clob.hpp makes an empty book.
use lowlat_matching_engine.Common.{ℕ, ◌-◌, ◌+◌, ◌*◌, ◌^◌, ◌≤◌, ◌<◌, ◌≡◌, refl, ap, arith, none, []}
use lowlat_matching_engine.Types.{Side, buy, sell, PriceLevel, default_level}
use lowlat_matching_engine.Pool
use lowlat_matching_engine.Pool.Laws
use lowlat_matching_engine.Index
use lowlat_matching_engine.Index.Probing.{IsCapacity}
use lowlat_matching_engine.Index.Erase.{new-IsValid}
use lowlat_matching_engine.Clob
use lowlat_matching_engine.Clob.{Clob, level}
use lowlat_matching_engine.Clob.Invariant.{IsQueue}
use lowlat_matching_engine.Clob.View.{View, Represents}

-- The abstract book at which no order rests.
abbrev pub empty_view : View
empty_view _ _ = []

module _ (max_orders : ℕ) (hash : ℕ → ℕ) (cap : IsCapacity (2 * max_orders)) (keys values : ℕ → ℕ)
    (min_price max_price : ℕ) where
  abbrev fresh : Clob
  fresh = Clob.new max_orders hash keys values min_price max_price

  fresh-level : (s : Side) (p : ℕ) → level fresh s p ≡ default_level
  unfolding Clob.new level
  fresh-level buy p = refl
  fresh-level sell p = refl

  fresh_pool : fresh.pool ≡ Pool.new max_orders
  unfolding Clob.new
  fresh_pool = refl

  fresh_table : fresh.order_lookup ≡ Index.new (2 * max_orders) hash keys values
  unfolding Clob.new
  fresh_table = refl

  fresh-IsQueue : (s : Side) (p : ℕ) → IsQueue max_orders hash fresh s p []
  fresh-IsQueue s p =
      let l = fresh-level s p in
      record {
        linked = tt;
        nodup = tt;
        members = λ i e. absurd e;
        head = ap (λ (l : PriceLevel). l.head_idx) l;
        tail = ap (λ (l : PriceLevel). l.tail_idx) l;
        count = ap (λ (l : PriceLevel). l.order_count) l;
        quantity = ap (λ (l : PriceLevel). l.total_qty) l;
      }

  fresh_bests : (fresh.best_bid ≡ none) × (fresh.best_ask ≡ none)
  unfolding Clob.new
  fresh_bests = (refl, refl)

  fresh_range : (fresh.min_price ≡ min_price) × (fresh.max_price ≡ max_price)
  unfolding Clob.new
  fresh_range = (refl, refl)

  fresh_sized : fresh.order_lookup.size + fresh.pool.top ≡ max_orders
  unfolding Clob.new Pool.new Index.new Index.clear
  fresh_sized = omega arith

  -- A new book for fewer than 2^32 orders and a range of prices that are 64-bit words, not all 2^64
  -- of them, is well formed, no order rests in it, and it has the range asked for, whatever the unspecified arrays
  -- of its table contain.
  pub new-Represents :
      max_orders < 2 ^ 32
      → min_price ≤ max_price
      → max_price < 2 ^ 64
      → max_price - min_price + 1 < 2 ^ 64
      → Represents max_orders hash cap
          (Clob.new max_orders hash keys values min_price max_price)
          empty_view
        × (fresh.min_price ≡ min_price)
        × (fresh.max_price ≡ max_price)
  unfolding Clob.new
  new-Represents small range word spans = (
    record {
      queues = λ _ _. [];
      book = record {
        core = record {
          range = range;
          word = word;
          spans = spans;
          pool = (Pool.Laws.new_lem max_orders small).0;
          table = (new-IsValid (2 * max_orders) hash cap keys values).0;
          queues = λ s p i. fresh-IsQueue s p;
          listed = λ order_id i found.
              let absent = (new-IsValid (2 * max_orders) hash cap keys values).1 order_id in
              ground (arith, found, absent);
          sized = fresh_sized;
        };
        bids = λ p l h. refl;
        asks = λ p l h. refl;
      };
      shows = λ s p i. refl;
    },
    refl,
    refl,
  )
