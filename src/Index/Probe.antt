-- ===== src/Index/Probe.antt =====
-- The probe of `insert` in src/order_index.hpp, with the vacant cell that it remembers.
use lowlat_matching_engine.Common.{
  ℕ, zero, suc, ◌<◌, ◌≡◌, ◌≢◌, sym, ap, ◌∙◌, inl, inr, ◌⊎◌, arith, Bool-cases, ◌==◌, eq-cases,
  update,
}
use lowlat_matching_engine.Index.{free, occupied, Table, vacant, remember, probe}
use lowlat_matching_engine.Index.Probing.{
  IsCapacity, home-lt, next-lt, at-zero, at-next, at_onto, weight, count_occupied-update,
  count_occupied-le, count_occupied_all,
}
use lowlat_matching_engine.Index.Search.{Holds, State-cases, PathOpen, Reaches, IsValid}
use lowlat_matching_engine.Index.Taken.{spot, after, start, probe-absent}

module _ (capacity : ℕ) (hash : ℕ → ℕ) (cap : IsCapacity capacity) where
  -- A cell that a probe from `pos` comes to and can use.
  pub record Usable (t : Table) (pos steps r : ℕ) : Type 0 where
    pub offset : ℕ
    pub few : offset < steps
    pub arrives : spot capacity hash cap pos offset ≡ r
    pub passable : PathOpen capacity hash cap t pos offset
    pub unoccupied : t.states r ≢ occupied

  Usable-here :
      (t : Table) (pos steps : ℕ)
      → pos < capacity
      → t.states pos ≢ occupied
      → Usable t pos (suc steps) pos
  Usable-here t pos steps h ne = record {
    offset = 0;
    few = omega arith;
    arrives = at-zero capacity hash cap pos h;
    passable = λ i q. absurd (omega arith);
    unoccupied = ne;
  }

  Usable-next :
      (t : Table) (pos steps r : ℕ)
      → pos < capacity
      → t.states pos ≢ free
      → Usable t (after capacity hash cap pos) steps r
      → Usable t pos (suc steps) r
  Usable-next t pos steps r h first u = record {
    offset = suc u.offset;
    few = omega (arith, u.few);
    arrives = sym (at-next capacity hash cap pos u.offset h) ∙ u.arrives;
    passable = λ i q f. passes i q f;
    unoccupied = u.unoccupied;
  }
    where
      passes : (i : ℕ) → i < suc u.offset → t.states (spot capacity hash cap pos i) ≢ free
      passes zero q f = first (sym (ap t.states (at-zero capacity hash cap pos h)) ∙ f)
      passes (suc i) q f =
          u.passable i (omega arith) (ap t.states (at-next capacity hash cap pos i h) ∙ f)

  pub probe-vacant :
      (t : Table) (order_id steps pos fd r : ℕ)
      → pos < capacity
      → probe capacity hash t order_id steps pos fd ≡ vacant r
      → (r ≡ fd) ⊎ ((fd ≡ capacity) × Usable t pos steps r)
  unfolding probe remember
  probe-vacant t order_id zero pos fd r h e = inl (ground arith)
  probe-vacant t order_id (suc steps) pos fd r h e = elim (State-cases (t.states pos)) [
    | inl f ↦ elim (eq-cases fd capacity) [
      | inl unset ↦
          let here : r ≡ pos = ground (arith, f, e, unset) in
          inr (
            unset,
            mathlib.Core.Path.subst (λ (x : ℕ). Usable t pos (suc steps) x) (sym here)
                (Usable-here t pos steps h (ground (arith, f))),
          )
      | inr kept ↦ inl (ground (arith, f, e, kept))
    ]
    | inr (inl d) ↦
        let step : probe capacity hash t order_id steps (after capacity hash cap pos)
              (remember capacity hash fd pos)
            ≡ vacant r =
          ground (arith, d, e) in
        elim (probe-vacant t order_id steps (after capacity hash cap pos)
          (remember capacity hash fd pos) r (next-lt capacity hash cap pos h) step) [
            | inl same ↦ elim (eq-cases fd capacity) [
              | inl unset ↦
                  let here : r ≡ pos = ground (arith, same, unset) in
                  inr (
                    unset,
                    mathlib.Core.Path.subst (λ (x : ℕ). Usable t pos (suc steps) x) (sym here)
                        (Usable-here t pos steps h (ground (arith, d))),
                  )
              | inr kept ↦ inl (ground (arith, same, kept))
            ]
            | inr (late, u) ↦
                inr (ground (arith, late, h), Usable-next t pos steps r h (ground (arith, d)) u)
          ]
    | inr (inr o) ↦ elim (Bool-cases (t.keys pos == order_id)) [
      | inl k ↦ ground (arith, o, k, e)
      | inr k ↦
          let step : probe capacity hash t order_id steps (after capacity hash cap pos) fd
              ≡ vacant r =
            ground (arith, o, k, e) in
          elim (probe-vacant t order_id steps (after capacity hash cap pos) fd r
            (next-lt capacity hash cap pos h) step) [
              | inl same ↦ inl same
              | inr (unset, u) ↦ inr (unset, Usable-next t pos steps r h (ground (arith, o)) u)
            ]
    ]
  ]

  -- If the probe found nothing to use, every cell that it visited is occupied.
  probe-full :
      (t : Table) (order_id steps pos j : ℕ)
      → pos < capacity
      → probe capacity hash t order_id steps pos capacity ≡ vacant capacity
      → j < steps
      → t.states (spot capacity hash cap pos j) ≡ occupied
  unfolding probe remember
  probe-full t order_id zero pos j h e few = absurd (omega arith)
  probe-full t order_id (suc steps) pos j h e few = elim (State-cases (t.states pos)) [
    | inl f ↦ let wrong : pos ≡ capacity = ground (arith, f, e) in absurd (omega arith)
    | inr (inl d) ↦
        let step : probe capacity hash t order_id steps (after capacity hash cap pos) pos
            ≡ vacant capacity =
          ground (arith, d, e) in
        elim (probe-vacant t order_id steps (after capacity hash cap pos) pos capacity
          (next-lt capacity hash cap pos h) step) [
            | inl same ↦ absurd (omega arith)
            | inr (late, u) ↦ absurd (omega arith)
          ]
    | inr (inr o) ↦ elim (Bool-cases (t.keys pos == order_id)) [
      | inl k ↦ ground (arith, o, k, e)
      | inr k ↦ further j few o (λ i q.
          probe-full t order_id steps (after capacity hash cap pos) i
            (next-lt capacity hash cap pos h) (ground (arith, o, k, e)) q)
    ]
  ]
    where
      further :
          (j : ℕ)
          → j < suc steps
          → t.states pos ≡ occupied
          → ((i : ℕ)
              → i < steps
              → t.states (spot capacity hash cap (after capacity hash cap pos) i) ≡ occupied)
          → t.states (spot capacity hash cap pos j) ≡ occupied
      further zero few o rest = ap t.states (at-zero capacity hash cap pos h) ∙ o
      further (suc j) few o rest =
          sym (ap t.states (at-next capacity hash cap pos j h)) ∙ rest j (omega arith)

  -- A valid table that does not hold the key, and what its probe for it found.
  pub probed :
      (t : Table) (order_id r : ℕ)
      → IsValid capacity hash cap t
      → probe capacity hash t order_id capacity (start capacity hash cap order_id) capacity
        ≡ vacant r
      → (p : ℕ) → ¬ Holds capacity t order_id p
  probed t order_id r v e p held =
      let reach =
        mathlib.Core.Path.subst (λ (k : ℕ). Reaches capacity hash cap t k p) held.key
          (v.reached p held.in_range held.is_occupied) in
      probe-absent capacity hash cap t order_id capacity (start capacity hash cap order_id) capacity
        r reach.steps (home-lt capacity hash cap order_id) e reach.few reach.passable
        (ap t.states reach.arrives ∙ held.is_occupied) (ap t.keys reach.arrives ∙ held.key)

  pub full_of_vacant :
      (t : Table) (order_id : ℕ)
      → IsValid capacity hash cap t
      → probe capacity hash t order_id capacity (start capacity hash cap order_id) capacity
        ≡ vacant capacity
      → t.size ≡ capacity
  full_of_vacant t order_id v e =
      v.counted ∙ count_occupied_all t.states capacity (λ p q. every p q)
    where
      every : (p : ℕ) → p < capacity → t.states p ≡ occupied
      every p q =
          let s =
            at_onto capacity hash cap (start capacity hash cap order_id) p
              (home-lt capacity hash cap order_id) q in
          sym (ap t.states s.2)
          ∙ probe-full t order_id capacity (start capacity hash cap order_id) s.0
              (home-lt capacity hash cap order_id) e s.1

  pub size-lt_of_unoccupied :
      (t : Table) (r : ℕ)
      → IsValid capacity hash cap t
      → r < capacity
      → t.states r ≢ occupied
      → t.size < capacity
  size-lt_of_unoccupied t r v h ne =
      let none : weight (t.states r) ≡ 0 = ground arith in
      omega (
        arith,
        v.counted,
        count_occupied-update t.states r occupied capacity h,
        count_occupied-le (update t.states r occupied) capacity,
        none,
      )
