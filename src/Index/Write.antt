-- ===== src/Index/Write.antt =====
-- The write of `insert` in src/order_index.hpp: the table with the key in the cell that was found.
use lowlat_matching_engine.Common.{
  ℕ, ◌+◌, ◌<◌, ◌≡◌, ◌≢◌, sym, ap, ◌∙◌, inl, inr, ◌⊎◌, arith, some, Option-cases, ◌==◌, eq-cases,
  update, add64, if◌then◌else◌,
}
use lowlat_matching_engine.Index.{occupied, Table, vacant, probe, find}
use lowlat_matching_engine.Index.Probing.{
  IsCapacity, at-lt, count_occupied-update, count_occupied-le,
}
use lowlat_matching_engine.Index.Search.{
  Holds, PathOpen, Reaches, IsValid, find-held, find-some, find-none, absent_of_find,
}
use lowlat_matching_engine.Index.Probe.{Usable, probed, size-lt_of_unoccupied}
use lowlat_matching_engine.Index.Taken.{start}

module _ (capacity : ℕ) (hash : ℕ → ℕ) (cap : IsCapacity capacity) where
  -- What a successful insertion makes of a table: one more key, all others unchanged.
  pub record Inserted (t : Table) (order_id idx : ℕ) (t' : Table) : Type 0 where
    pub valid : IsValid capacity hash cap t'
    pub grown : t'.size ≡ t.size + 1
    pub reads :
        (q : ℕ)
        → find capacity hash t' q ≡ (if q == order_id then some idx else find capacity hash t q)

  module _ (t : Table) (order_id idx r : ℕ) where
    abbrev pub written : Table
    written = record t {
      keys = update t.keys r order_id;
      values = update t.values r idx;
      states = update t.states r occupied;
      size = add64 t.size 1;
    }

    module _ (v : IsValid capacity hash cap t)
        (e : probe capacity hash t order_id capacity (start capacity hash cap order_id) capacity
          ≡ vacant r)
        (u : Usable capacity hash cap t (start capacity hash cap order_id) capacity r) where
      pub cell-lt : r < capacity
      cell-lt =
          mathlib.Core.Path.subst (λ (x : ℕ). x < capacity) u.arrives
            (at-lt capacity hash cap (start capacity hash cap order_id) u.offset)

      keep_open :
          (pos j : ℕ)
          → PathOpen capacity hash cap t pos j
          → PathOpen capacity hash cap written pos j
      keep_open pos j o i q = ground (arith, o i q)

      -- The new table holds the key at `r`, and the other keys where they were.
      held_new : Holds capacity written order_id r
      held_new = record { in_range = cell-lt; is_occupied = ground arith; key = ground arith }

      held_old : (q p : ℕ) → Holds capacity t q p → Holds capacity written q p × (p ≢ r)
      held_old q p h =
          let apart : p ≢ r = λ same. u.unoccupied (sym (ap t.states same) ∙ h.is_occupied) in
          (
            record {
              in_range = h.in_range;
              is_occupied = ground (arith, h.is_occupied);
              key = ground (arith, h.key);
            },
            apart,
          )

      held_back :
          (q p : ℕ)
          → Holds capacity written q p
          → ((p ≡ r) × (q ≡ order_id)) ⊎ (Holds capacity t q p × (q ≢ order_id))
      held_back q p h = elim (eq-cases p r) [
        | inl same ↦ inl (same, ground (arith, h.key))
        | inr other ↦
            let old : Holds capacity t q p = record {
              in_range = h.in_range;
              is_occupied = ground (arith, h.is_occupied);
              key = ground (arith, h.key);
            } in
            inr (
              old,
              λ s.
                  probed capacity hash cap t order_id r v e p
                    (mathlib.Core.Path.subst (λ (x : ℕ). Holds capacity t x p) s old),
            )
      ]

      Reaches-new : Reaches capacity hash cap written order_id r
      Reaches-new = record {
        steps = u.offset;
        few = u.few;
        arrives = u.arrives;
        passable = keep_open (start capacity hash cap order_id) u.offset u.passable;
      }

      written-IsValid : IsValid capacity hash cap written
      written-IsValid = record {
        reached = λ p h o. reach p h o;
        unique = λ k p q hp hq. one k p q (held_back k p hp) (held_back k q hq);
        counted = ground (
          arith,
          v.counted,
          count_occupied-update t.states r occupied capacity cell-lt,
          count_occupied-le (update t.states r occupied) capacity,
          cap.word,
          u.unoccupied,
        );
      }
        where
          reach :
              (p : ℕ)
              → p < capacity
              → written.states p ≡ occupied
              → Reaches capacity hash cap written (written.keys p) p
          reach p h o = elim (eq-cases p r) [
            | inl same ↦
                let k : order_id ≡ written.keys p = ground arith in
                mathlib.Core.Path.subst₂ (λ (x y : ℕ). Reaches capacity hash cap written x y) k
                  (sym same) Reaches-new
            | inr other ↦
                let k : t.keys p ≡ written.keys p = ground arith in
                let old = v.reached p h (ground (arith, o)) in
                mathlib.Core.Path.subst (λ (x : ℕ). Reaches capacity hash cap written x p) k
                  (record {
                    steps = old.steps;
                    few = old.few;
                    arrives = old.arrives;
                    passable =
                        keep_open (start capacity hash cap (t.keys p)) old.steps old.passable;
                  })
          ]

          one :
              (k p q : ℕ)
              → ((p ≡ r) × (k ≡ order_id)) ⊎ (Holds capacity t k p × (k ≢ order_id))
              → ((q ≡ r) × (k ≡ order_id)) ⊎ (Holds capacity t k q × (k ≢ order_id))
              → p ≡ q
          one k p q (inl a) (inl b) = omega (arith, a.0, b.0)
          one k p q (inl a) (inr b) = absurd (b.1 a.1)
          one k p q (inr a) (inl b) = absurd (a.1 b.1)
          one k p q (inr a) (inr b) = v.unique k p q a.0 b.0

      written-find :
          (q : ℕ)
          → find capacity hash written q
            ≡ (if q == order_id then some idx else find capacity hash t q)
      written-find q = elim (eq-cases q order_id) [
        | inl same ↦
            let hit = find-held capacity hash cap written order_id r written-IsValid held_new in
            ground (arith, ap (find capacity hash written) same, hit)
        | inr other ↦ elim (Option-cases (find capacity hash t q)) [
          | inr (w, s) ↦
              let f = find-some capacity hash cap t q w s in
              let h = held_old q f.0 f.1 in
              ground
                (arith, s, find-held capacity hash cap written q f.0 written-IsValid h.0, f.2, h.1)
          | inl n ↦
              let away = absent_of_find capacity hash cap t q v n in
              let gone =
                find-none capacity hash cap written q
                  (λ p h. no q p other away (held_back q p h)) in
              ground (arith, n, gone)
        ]
      ]
        where
          no :
              (q p : ℕ)
              → q ≢ order_id
              → ((p : ℕ) → ¬ Holds capacity t q p)
              → ((p ≡ r) × (q ≡ order_id)) ⊎ (Holds capacity t q p × (q ≢ order_id))
              → ⊥
          no q p ne away (inl a) = ne a.1
          no q p ne away (inr b) = away p b.0

      pub written-Inserted : Inserted t order_id idx written
      written-Inserted = record {
        valid = written-IsValid;
        grown =
            omega
              (arith, size-lt_of_unoccupied capacity hash cap t r v cell-lt u.unoccupied, cap.word);
        reads = written-find;
      }
