-- ===== src/Index/Erase.antt =====
-- `erase` and the constructor of src/order_index.hpp.
use lowlat_matching_engine.Common.{
  ℕ, ◌+◌, ◌<◌, ◌≡◌, ◌≢◌, sym, ap, ◌∙◌, inl, inr, arith, none, some, true, false, Option-cases,
  eq-cases, update, sub64, ◌==◌, if◌then◌else◌,
}
use lowlat_matching_engine.Index.{occupied, deleted, Table, home, locate, find, erase, new, clear}
use lowlat_matching_engine.Index.Probing.{
  IsCapacity, count_occupied-update, count_occupied_none, count_occupied_pos, count_occupied-le,
}
use lowlat_matching_engine.Index.Search.{
  Holds, Reaches, IsValid, PathOpen, locate_found, find-held, find-some, find-none, absent_of_find,
}

module _ (capacity : ℕ) (hash : ℕ → ℕ) (cap : IsCapacity capacity) where
  -- What a successful erasure makes of a table: one key less, all others unchanged.
  pub record Erased (t : Table) (order_id : ℕ) (t' : Table) : Type 0 where
    pub valid : IsValid capacity hash cap t'
    pub shrunk : t'.size + 1 ≡ t.size
    pub reads :
        (q : ℕ) → find capacity hash t' q ≡ (if q == order_id then none else find capacity hash t q)

  module _ (t : Table) (order_id r : ℕ) where
    abbrev cleared : Table
    cleared = record t { states = update t.states r deleted; size = sub64 t.size 1 }

    module _ (v : IsValid capacity hash cap t) (at_r : Holds capacity t order_id r) where
      keep_open :
          (pos j : ℕ)
          → PathOpen capacity hash cap t pos j
          → PathOpen capacity hash cap cleared pos j
      keep_open pos j o i q = ground (arith, o i q)

      back : (q p : ℕ) → Holds capacity cleared q p → Holds capacity t q p × (p ≢ r)
      back q p h =
          let apart : p ≢ r = λ same. ground (arith, h.is_occupied) in
          (
            record {
              in_range = h.in_range;
              is_occupied = ground (arith, h.is_occupied);
              key = h.key;
            },
            apart,
          )

      still : (q p : ℕ) → Holds capacity t q p → q ≢ order_id → Holds capacity cleared q p
      still q p h ne =
          let apart : p ≢ r = λ same. ne (sym h.key ∙ ap t.keys same ∙ at_r.key) in
          record { in_range = h.in_range; is_occupied = ground (arith, h.is_occupied); key = h.key }

      cleared-IsValid : IsValid capacity hash cap cleared
      cleared-IsValid = record {
        reached = λ p h o. reach p h o;
        unique = λ k p q hp hq. v.unique k p q (back k p hp).0 (back k q hq).0;
        counted = ground (
          arith,
          v.counted,
          at_r.is_occupied,
          count_occupied-update t.states r deleted capacity at_r.in_range,
          count_occupied-le t.states capacity,
          cap.word,
        );
      }
        where
          reach :
              (p : ℕ)
              → p < capacity
              → cleared.states p ≡ occupied
              → Reaches capacity hash cap cleared (t.keys p) p
          reach p h o =
              let old = v.reached p h (ground (arith, o)) in
              record {
                steps = old.steps;
                few = old.few;
                arrives = old.arrives;
                passable = keep_open (home capacity hash (t.keys p)) old.steps old.passable;
              }

      cleared-find :
          (q : ℕ)
          → find capacity hash cleared q ≡ (if q == order_id then none else find capacity hash t q)
      cleared-find q = elim (eq-cases q order_id) [
        | inl same ↦
            let gone = find-none capacity hash cap cleared q (λ p h.
              let b = back q p h in
              b.1 (
                v.unique order_id p r
                  (mathlib.Core.Path.subst (λ (x : ℕ). Holds capacity t x p) same b.0) at_r)) in
            ground (arith, same, gone)
        | inr other ↦ elim (Option-cases (find capacity hash t q)) [
          | inr (w, s) ↦
              let f = find-some capacity hash cap t q w s in
              ground (
                arith,
                s,
                find-held capacity hash cap cleared q f.0 cleared-IsValid (still q f.0 f.1 other),
                f.2,
              )
          | inl n ↦
              let away = absent_of_find capacity hash cap t q v n in
              let gone = find-none capacity hash cap cleared q (λ p h. away p (back q p h).0) in
              ground (arith, n, gone)
        ]
      ]

      cleared-Erased : Erased t order_id cleared
      cleared-Erased = record {
        valid = cleared-IsValid;
        shrunk = omega (
          arith,
          v.counted,
          count_occupied-le t.states capacity,
          cap.word,
          count_occupied_pos t.states r capacity at_r.in_range at_r.is_occupied,
        );
        reads = cleared-find;
      }

  -- `erase` of a key that is there succeeds, keeps the table valid, takes one from its size and
  -- makes find fail at that key and return what it did before at all others.
  pub erase_present :
      (t : Table) (order_id idx : ℕ)
      → IsValid capacity hash cap t
      → find capacity hash t order_id ≡ some idx
      → (t' : Table) × (erase capacity hash t order_id ≡ (true, t')) × Erased t order_id t'
  unfolding erase find
  erase_present t order_id idx v present =
      elim (Option-cases (locate capacity hash t order_id capacity (home capacity hash order_id))) [
        | inl n ↦ ground (arith, n, present)
        | inr (r, s) ↦
            let held = locate_found capacity hash cap t order_id r s in
            (cleared t order_id r, ground (arith, s), cleared-Erased t order_id r v held)
      ]

  -- `erase` of a key that is not there is refused, and changes nothing.
  pub erase_absent :
      (t : Table) (order_id : ℕ)
      → find capacity hash t order_id ≡ none
      → erase capacity hash t order_id ≡ (false, t)
  unfolding erase find
  erase_absent t order_id absent =
      elim (Option-cases (locate capacity hash t order_id capacity (home capacity hash order_id))) [
        | inl n ↦ ground (arith, n)
        | inr (r, s) ↦ ground (arith, s, absent)
      ]

  -- A new table is valid and find fails at every key, whatever the unspecified arrays contain.
  pub new-IsValid :
      (keys values : ℕ → ℕ)
      → IsValid capacity hash cap (new capacity hash keys values)
        × ((q : ℕ) → find capacity hash (new capacity hash keys values) q ≡ none)
  unfolding new clear
  new-IsValid keys values = (
    record {
      reached = λ p h o. ground (arith, o);
      unique = λ k p q hp hq. ground (arith, hp.is_occupied);
      counted = omega (arith, count_occupied_none capacity);
    },
    λ q.
        find-none capacity hash cap (new capacity hash keys values) q
          (λ p h. ground (arith, h.is_occupied)),
  )
