-- ===== src/Clob/Consume.antt =====
-- Steps of `consume` and of replacing a queue, as the loop over a level of src/fixed_clob.hpp takes
-- them.
use mathlib.Core.Path.{subst₂}
use lowlat_matching_engine.Common.{
  ℕ, ◌-◌, ◌≤◌, ◌<◌, ◌≡◌, refl, sym, ◌∙◌, inl, inr, arith, List, [], ◌∷◌,
}
use lowlat_matching_engine.Types.{Side}
use lowlat_matching_engine.Clob.Invariant.{requeue, requeue_here, requeue_away, spot_cases}
use lowlat_matching_engine.Clob.View.{Entry, View, withdraw, consume, trade}

pub consume-zero :
    (id price : ℕ) (q : List Entry)
    → consume id price 0 q ≡ record { left = 0; queue = q; trades = [] }
unfolding consume
consume-zero id price [] = refl
consume-zero id price (e ∷ q) = refl

pub consume-part :
    (id price qty : ℕ) (e : Entry) (q : List Entry)
    → 0 < qty
    → qty < e.qty
    → consume id price qty (e ∷ q) ≡ record {
      left = 0;
      queue = record e { qty = e.qty - qty } ∷ q;
      trades = trade id e.order_id price qty ∷ [];
    }
unfolding consume
consume-part id price qty e q pos less = ground arith

pub consume-whole :
    (id price qty : ℕ) (e : Entry) (q : List Entry)
    → 0 < qty
    → e.qty ≤ qty
    → consume id price qty (e ∷ q) ≡ record {
      left = (consume id price (qty - e.qty) q).left;
      queue = (consume id price (qty - e.qty) q).queue;
      trades = trade id e.order_id price e.qty ∷ (consume id price (qty - e.qty) q).trades;
    }
unfolding consume
consume-whole id price qty e q pos more = ground arith

-- Replacing what stands at a place by what already stands there changes nothing.
pub requeue_same :
    (v : View) (side : Side) (price : ℕ) (x : List Entry)
    → v side price ≡ x
    → (s : Side) (p : ℕ) → requeue v side price x s p ≡ v s p
requeue_same v side price x e s p = elim (spot_cases s side p price) [
  | inl (es, ep) ↦
      subst₂ (λ (s : Side) (p : ℕ). requeue v side price x s p ≡ v s p) (sym es) (sym ep)
        (requeue_here v side price x ∙ sym e)
  | inr away ↦ requeue_away v side price x s p away
]

pub requeue_twice :
    (v : View) (side : Side) (price : ℕ) (x y : List Entry) (s : Side) (p : ℕ)
    → requeue v side price y s p ≡ requeue (requeue v side price x) side price y s p
requeue_twice v side price x y s p = elim (spot_cases s side p price) [
  | inl (es, ep) ↦
      subst₂
        (λ (s : Side) (p : ℕ).
          requeue v side price y s p ≡ requeue (requeue v side price x) side price y s p)
        (sym es) (sym ep)
        (requeue_here v side price y ∙ sym (requeue_here (requeue v side price x) side price y))
  | inr away ↦
      requeue_away v side price y s p away
      ∙ sym (requeue_away v side price x s p away)
      ∙ sym (requeue_away (requeue v side price x) side price y s p away)
]

pub withdraw_front : (e : Entry) (q : List Entry) → withdraw e.order_id (e ∷ q) ≡ q
unfolding withdraw
withdraw_front e q = ground arith
