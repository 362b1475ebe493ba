-- ===== src/Index/Taken.antt =====
-- Probing of src/order_index.hpp for a key that is there, and for one that is not.
use lowlat_matching_engine.Common.{
  ℕ, zero, suc, ◌<◌, ◌≡◌, ◌≢◌, refl, sym, ap, ◌∙◌, inl, inr, ◌⊎◌, arith, Bool-cases, ==_iff, ◌==◌,
}
use lowlat_matching_engine.Index.{
  free, occupied, Table, Slot, duplicate, vacant, home, next, remember, probe,
}
use lowlat_matching_engine.Index.Probing.{IsCapacity, at, next-lt, at-zero, at-next}
use lowlat_matching_engine.Index.Search.{Holds, State-cases, PathOpen}

pub Slot-cases : (s : Slot) → (s ≡ duplicate) ⊎ ((r : ℕ) × (s ≡ vacant r))
Slot-cases duplicate = inl refl
Slot-cases (vacant r) = inr (r, refl)

module _ (capacity : ℕ) (hash : ℕ → ℕ) (cap : IsCapacity capacity) where
  abbrev pub spot : ℕ → ℕ → ℕ
  spot pos j = at capacity hash cap pos j

  abbrev pub after : ℕ → ℕ
  after pos = next capacity hash pos

  abbrev pub start : ℕ → ℕ
  start order_id = home capacity hash order_id

  pub probe-duplicate :
      (t : Table) (order_id steps pos fd : ℕ)
      → pos < capacity
      → probe capacity hash t order_id steps pos fd ≡ duplicate
      → (p : ℕ) × Holds capacity t order_id p
  unfolding probe
  probe-duplicate t order_id zero pos fd h e = ground arith
  probe-duplicate t order_id (suc steps) pos fd h e = elim (State-cases (t.states pos)) [
    | inl f ↦ ground (arith, f)
    | inr (inl d) ↦
        probe-duplicate t order_id steps (after pos) (remember capacity hash fd pos)
          (next-lt capacity hash cap pos h) (ground (arith, d, e))
    | inr (inr o) ↦ elim (Bool-cases (t.keys pos == order_id)) [
      | inl k ↦ (pos, record { in_range = h; is_occupied = o; key = (==_iff _ _).0 k })
      | inr k ↦
          probe-duplicate t order_id steps (after pos) fd (next-lt capacity hash cap pos h)
            (ground (arith, o, k, e))
    ]
  ]

  -- The key does not stand where the probe could have come to it.
  pub probe-absent :
      (t : Table) (order_id steps pos fd r j : ℕ)
      → pos < capacity
      → probe capacity hash t order_id steps pos fd ≡ vacant r
      → j < steps
      → PathOpen capacity hash cap t pos j
      → t.states (spot pos j) ≡ occupied
      → t.keys (spot pos j) ≢ order_id
  unfolding probe
  probe-absent t order_id zero pos fd r j h e few o occ key = absurd (omega arith)
  probe-absent t order_id (suc steps) pos fd r zero h e few o occ key =
      let here = at-zero capacity hash cap pos h in
      ground (arith, ap t.states here, ap t.keys here, ==_iff (t.keys pos) order_id, occ, key, e)
  probe-absent t order_id (suc steps) pos fd r (suc j) h e few o occ key =
      let shift = at-next capacity hash cap pos j h in
      let first : t.states pos ≢ free =
        λ f. o 0 (omega arith) (ap t.states (at-zero capacity hash cap pos h) ∙ f) in
      let rest = λ (fd' : ℕ) (e' : probe capacity hash t order_id steps (after pos) fd' ≡ vacant r).
        probe-absent t order_id steps (after pos) fd' r j (next-lt capacity hash cap pos h) e'
          (omega arith)
          (λ i q f.
            o (suc i) (omega arith) (sym (ap t.states (at-next capacity hash cap pos i h)) ∙ f))
          (ap t.states shift ∙ occ) (ap t.keys shift ∙ key) in
      elim (State-cases (t.states pos)) [
        | inl f ↦ absurd (first f)
        | inr (inl d) ↦ rest (remember capacity hash fd pos) (ground (arith, d, e))
        | inr (inr s) ↦ elim (Bool-cases (t.keys pos == order_id)) [
          | inl k ↦ ground (arith, s, k, e)
          | inr k ↦ rest fd (ground (arith, s, k, e))
        ]
      ]
