-- ===== src/Index/Insert.antt =====
-- `insert` of src/order_index.hpp on its three branches.
use lowlat_matching_engine.Common.{ℕ, ◌<◌, ◌≡◌, inl, inr, arith, none, some, true, false}
use lowlat_matching_engine.Index.{Table, IsId, vacant, probe, insert, find}
use lowlat_matching_engine.Index.Probing.{IsCapacity, home-lt}
use lowlat_matching_engine.Index.Search.{Holds, IsValid, absent_of_find, find-held}
use lowlat_matching_engine.Index.Probe.{probe-vacant, probed, full_of_vacant, size-lt_of_unoccupied}
use lowlat_matching_engine.Index.Taken.{start, Slot-cases, probe-duplicate}
use lowlat_matching_engine.Index.Write
use lowlat_matching_engine.Index.Search
use lowlat_matching_engine.Index.Write.{Inserted, written, written-Inserted}

module _ (capacity : ℕ) (hash : ℕ → ℕ) (cap : IsCapacity capacity) where
  insert_cases :
      (t : Table) (order_id idx : ℕ)
      → IsValid capacity hash cap t
      → find capacity hash t order_id ≡ none
      → (r : ℕ) × (probe capacity hash t order_id capacity
            (start capacity hash cap order_id)
            capacity
          ≡ vacant r)
  insert_cases t order_id idx v absent =
      elim (Slot-cases
        (probe capacity hash t order_id capacity (start capacity hash cap order_id) capacity)) [
          | inl d ↦
              let f =
                probe-duplicate capacity hash cap t order_id capacity _ capacity
                  (home-lt capacity hash cap order_id) d in
              absurd (absent_of_find capacity hash cap t order_id v absent f.0 f.1)
          | inr found ↦ found
        ]

  -- `insert` of a key that find finds is refused and leaves the table as it was.
  pub insert_present :
      (t : Table) (order_id idx old : ℕ)
      → IsValid capacity hash cap t
      → find capacity hash t order_id ≡ some old
      → insert capacity hash t order_id idx ≡ (false, t)
  unfolding insert
  insert_present t order_id idx old v present =
      elim (Slot-cases
        (probe capacity hash t order_id capacity (start capacity hash cap order_id) capacity)) [
          | inl d ↦ ground (arith, d)
          | inr (r, e) ↦
              let gone =
                Search.find-none capacity hash cap t order_id
                  (probed capacity hash cap t order_id r v e) in
              ground (arith, gone, present)
        ]

  -- `insert` of an absent key other than 0 into a valid table with room succeeds, keeps the table
  -- valid, adds one to its size and makes find return the new index at that key and what it
  -- returned before at all others.
  pub insert_new :
      (t : Table) (order_id idx : ℕ)
      → IsId order_id
      → IsValid capacity hash cap t
      → find capacity hash t order_id ≡ none
      → t.size < capacity
      → (t' : Table) × (insert capacity hash t order_id idx ≡ (true, t'))
        × Inserted capacity hash cap t order_id idx t'
  unfolding insert
  insert_new t order_id idx id v absent room =
      let (r, e) = insert_cases t order_id idx v absent in
      elim (probe-vacant capacity hash cap t order_id capacity _ capacity r
        (home-lt capacity hash cap order_id) e) [
          | inl unset ↦ absurd (
              omega (
                arith,
                full_of_vacant capacity hash cap t order_id v (
                    mathlib.Core.Path.subst
                      (λ (x : ℕ).
                        probe capacity hash t order_id capacity (start capacity hash cap order_id)
                          capacity
                        ≡ vacant x)
                      unset e),
              ))
          | inr (_, u) ↦
              let ok = written-Inserted capacity hash cap t order_id idx r v e u in
              let r_lt : r < capacity = Write.cell-lt capacity hash cap t order_id idx r v e u in
              (written capacity hash cap t order_id idx r, ground (arith, e, r_lt), ok)
        ]

  -- `insert` into a valid table whose size is its capacity is refused and leaves the table as it
  -- was.
  pub insert_full :
      (t : Table) (order_id idx : ℕ)
      → IsValid capacity hash cap t
      → t.size ≡ capacity
      → insert capacity hash t order_id idx ≡ (false, t)
  unfolding insert
  insert_full t order_id idx v full =
      elim (Slot-cases
        (probe capacity hash t order_id capacity (start capacity hash cap order_id) capacity)) [
          | inl d ↦ ground (arith, d)
          | inr (r, e) ↦
              elim (probe-vacant capacity hash cap t order_id capacity _ capacity r
                (home-lt capacity hash cap order_id) e) [
                  | inl unset ↦ ground (arith, e, unset)
                  | inr (_, u) ↦ absurd (
                      omega (
                        arith,
                        size-lt_of_unoccupied capacity hash cap t r v
                            (Write.cell-lt capacity hash cap t order_id idx r v e u) u.unoccupied,
                      ))
                ]
        ]
