-- ===== src/Index/Search.antt =====
-- The probe loop of `find` and `erase` in src/order_index.hpp: it finds a key exactly when an
-- occupied cell holds it.
use lowlat_matching_engine.Common.{
  ℕ, zero, suc, ◌<◌, ◌≡◌, ◌≢◌, refl, sym, ap, ◌∙◌, inl, inr, ◌⊎◌, arith, none, some, ==_iff,
  Option-cases,
}
use lowlat_matching_engine.Index.{State, free, occupied, deleted, Table, home, next, locate, find}
use lowlat_matching_engine.Index.Probing.{
  IsCapacity, at, home-lt, next-lt, at-zero, at-next, count_occupied,
}

-- An occupied cell `p` holds `order_id`.
pub record Holds (capacity : ℕ) (t : Table) (order_id p : ℕ) : Type 0 where
  pub in_range : p < capacity
  pub is_occupied : t.states p ≡ occupied
  pub key : t.keys p ≡ order_id

pub State-cases : (s : State) → (s ≡ free) ⊎ (s ≡ deleted) ⊎ (s ≡ occupied)
State-cases free = inl refl
State-cases deleted = inr (inl refl)
State-cases occupied = inr (inr refl)

module _ (capacity : ℕ) (hash : ℕ → ℕ) (cap : IsCapacity capacity) where
  -- No cell that a probe from `pos` visits in its first `j` steps is empty.
  abbrev pub PathOpen : Table → ℕ → ℕ → Type 0
  PathOpen t pos j = (i : ℕ) → i < j → t.states (at capacity hash cap pos i) ≢ free

  -- A probe for the key that cell `p` holds comes to `p`.
  pub record Reaches (t : Table) (order_id p : ℕ) : Type 0 where
    pub steps : ℕ
    pub few : steps < capacity
    pub arrives : at capacity hash cap (home capacity hash order_id) steps ≡ p
    pub passable : PathOpen t (home capacity hash order_id) steps

  -- Each occupied cell is reached by its key, no two hold the same key, and `size` counts them.
  pub record IsValid (t : Table) : Type 0 where
    pub reached : (p : ℕ) → p < capacity → t.states p ≡ occupied → Reaches t (t.keys p) p
    pub unique :
        (order_id p q : ℕ) → Holds capacity t order_id p → Holds capacity t order_id q → p ≡ q
    pub counted : t.size ≡ count_occupied t.states capacity

  locate_sound :
      (t : Table) (order_id steps pos p : ℕ)
      → pos < capacity
      → locate capacity hash t order_id steps pos ≡ some p
      → Holds capacity t order_id p
  unfolding locate
  locate_sound t order_id zero pos p h e = ground arith
  locate_sound t order_id (suc steps) pos p h e = ground (
    arith,
    locate_sound t order_id steps (next capacity hash pos) p (next-lt capacity hash cap pos h),
    ==_iff (t.keys pos) order_id,
  )

  open_next :
      (t : Table) (pos j : ℕ)
      → pos < capacity
      → PathOpen t pos (suc j)
      → PathOpen t (next capacity hash pos) j
  open_next t pos j h o i q e =
      o (suc i) (omega arith) (sym (ap t.states (at-next capacity hash cap pos i h)) ∙ e)

  locate_complete :
      (t : Table) (order_id p steps pos j : ℕ)
      → pos < capacity
      → j < steps
      → at capacity hash cap pos j ≡ p
      → PathOpen t pos j
      → Holds capacity t order_id p
      → ((q : ℕ) → Holds capacity t order_id q → q ≡ p)
      → locate capacity hash t order_id steps pos ≡ some p
  unfolding locate
  locate_complete t order_id p zero pos j h few a o held uniq = absurd (omega arith)
  locate_complete t order_id p (suc steps) pos zero h few a o held uniq =
      let here : pos ≡ p = sym (at-zero capacity hash cap pos h) ∙ a in
      ground (
        arith,
        here,
        held.is_occupied,
        held.key,
        ap t.states here,
        ap t.keys here,
        ==_iff (t.keys pos) order_id,
      )
  locate_complete t order_id p (suc steps) pos (suc j) h few a o held uniq =
      let rest =
        locate_complete t order_id p steps (next capacity hash pos) j
          (next-lt capacity hash cap pos h) (omega arith) (at-next capacity hash cap pos j h ∙ a)
          (open_next t pos j h o) held uniq in
      let first : t.states pos ≢ free =
        λ e. o 0 (omega arith) (ap t.states (at-zero capacity hash cap pos h) ∙ e) in
      let same : t.states pos ≡ occupied → t.keys pos ≡ order_id → pos ≡ p =
        λ s k. uniq pos (record { in_range = h; is_occupied = s; key = k }) in
      ground (arith, rest, first, same, ==_iff (t.keys pos) order_id)

  locate-held :
      (t : Table) (order_id p : ℕ)
      → IsValid t
      → Holds capacity t order_id p
      → locate capacity hash t order_id capacity (home capacity hash order_id) ≡ some p
  locate-held t order_id p v held =
      let r : Reaches t (t.keys p) p = v.reached p held.in_range held.is_occupied in
      let r' : Reaches t order_id p =
        mathlib.Core.Path.subst (λ (k : ℕ). Reaches t k p) held.key r in
      locate_complete t order_id p capacity (home capacity hash order_id) r'.steps
        (home-lt capacity hash cap order_id) r'.few r'.arrives r'.passable held
        (λ q other. v.unique order_id q p other held)

  -- The cell at which `find` and `erase` stop.
  pub locate_found :
      (t : Table) (order_id p : ℕ)
      → locate capacity hash t order_id capacity (home capacity hash order_id) ≡ some p
      → Holds capacity t order_id p
  locate_found t order_id p e =
      locate_sound t order_id capacity (home capacity hash order_id) p
        (home-lt capacity hash cap order_id) e

  pub locate_absent :
      (t : Table) (order_id : ℕ)
      → IsValid t
      → locate capacity hash t order_id capacity (home capacity hash order_id) ≡ none
      → (p : ℕ) → ¬ Holds capacity t order_id p
  locate_absent t order_id v e p held =
      let hit = locate-held t order_id p v held in ground (arith, hit, e)

  -- `find` returns the value of the cell that holds the key.
  pub find-held :
      (t : Table) (order_id p : ℕ)
      → IsValid t
      → Holds capacity t order_id p
      → find capacity hash t order_id ≡ some (t.values p)
  unfolding find
  find-held t order_id p v held = ground (arith, locate-held t order_id p v held)

  pub find-some :
      (t : Table) (order_id idx : ℕ)
      → find capacity hash t order_id ≡ some idx
      → (p : ℕ) × Holds capacity t order_id p × (t.values p ≡ idx)
  unfolding find
  find-some t order_id idx e =
      elim (Option-cases (locate capacity hash t order_id capacity (home capacity hash order_id))) [
        | inl n ↦ ground (arith, n)
        | inr (p, s) ↦ (p, locate_found t order_id p s, ground (arith, s))
      ]

  pub find-none :
      (t : Table) (order_id : ℕ)
      → ((p : ℕ) → ¬ Holds capacity t order_id p)
      → find capacity hash t order_id ≡ none
  find-none t order_id away = elim (Option-cases (find capacity hash t order_id)) [
    | inl n ↦ n
    | inr (idx, s) ↦ let f = find-some t order_id idx s in absurd (away f.0 f.1)
  ]

  pub absent_of_find :
      (t : Table) (order_id : ℕ)
      → IsValid t
      → find capacity hash t order_id ≡ none
      → (p : ℕ) → ¬ Holds capacity t order_id p
  absent_of_find t order_id v e p held =
      let hit = find-held t order_id p v held in ground (arith, hit, e)
