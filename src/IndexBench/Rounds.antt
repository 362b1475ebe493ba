-- ===== src/IndexBench/Rounds.antt =====
-- Every call of the benchmarks of bench/bench_order_index.cpp succeeds.
use mathlib.Core.Path.{subst}
use lowlat_matching_engine.Common.{
  ℕ, ◌+◌, ◌^◌, ◌≤◌, ◌<◌, ◌≡◌, ◌≢◌, refl, ap, ap₂, ◌∙◌, inl, inr, arith, Bool, true, Option, none,
  some, List, [], ◌∷◌, length, map, ne→==, ◌==◌,
}
use lowlat_matching_engine.Index
use lowlat_matching_engine.Index.{IsId, Table, insert, find, erase}
use lowlat_matching_engine.Index.Probing.{IsCapacity}
use lowlat_matching_engine.Index.Search.{IsValid}
use lowlat_matching_engine.Index.Write.{Inserted}
use lowlat_matching_engine.Index.Insert.{insert_new}
use lowlat_matching_engine.Index.Erase.{erase_present, new-IsValid}
use lowlat_matching_engine.Clob.Queues.{Elem, IsNodup}
use lowlat_matching_engine.IndexBench.{
  IdPattern, make_ids, insert_each, find_each, erase_each, run_index_insert, run_index_find,
  run_index_erase,
}
use lowlat_matching_engine.IndexBench.Ids.{new_size, make_ids-IsNodup, make_ids-IsId}

module _ (capacity : ℕ) (hash : ℕ → ℕ) (cap : IsCapacity capacity) where
  -- The ids are in the index, and all else is as before.
  record AllInserted (t : Table) (ids : List ℕ) (t' : Table) : Type 0 where
    valid : IsValid capacity hash cap t'
    grown : t'.size ≡ t.size + length ids
    there : (q : ℕ) → Elem q ids → find capacity hash t' q ≡ some 1
    others : (q : ℕ) → (¬ Elem q ids) → find capacity hash t' q ≡ find capacity hash t q

  inserted_here :
      {t t₁ : Table} {id : ℕ}
      → Inserted capacity hash cap t id 1 t₁
      → find capacity hash t₁ id ≡ some 1
  inserted_here {t} {t₁} {id} one =
      let same : id == id ≡ true = ground arith in one.reads id ∙ rw same

  inserted_away :
      {t t₁ : Table} {id : ℕ}
      → Inserted capacity hash cap t id 1 t₁
      → (q : ℕ) → q ≢ id
      → find capacity hash t₁ q ≡ find capacity hash t q
  inserted_away one q ne = let apart = ne→== q _ ne in one.reads q ∙ rw apart

  insert_each-cons :
      (t t₁ t' : Table) (id : ℕ) (ids : List ℕ) (answer : Bool) (answers : List Bool)
      → insert capacity hash t id 1 ≡ (answer, t₁)
      → insert_each capacity hash t₁ ids ≡ (answers, t')
      → insert_each capacity hash t (id ∷ ids) ≡ (answer ∷ answers, t')
  unfolding insert_each
  insert_each-cons t t₁ t' id ids answer answers ran ran' =
      ap
        (λ (p : Bool × Table).
          (p.0 ∷ (insert_each capacity hash p.1 ids).0, (insert_each capacity hash p.1 ids).1))
        ran
      ∙ ap (λ (r : List Bool × Table). (answer ∷ r.0, r.1)) ran'

  erase_each-cons :
      (t t₁ t' : Table) (id : ℕ) (ids : List ℕ) (answer : Bool) (answers : List Bool)
      → erase capacity hash t id ≡ (answer, t₁)
      → erase_each capacity hash t₁ ids ≡ (answers, t')
      → erase_each capacity hash t (id ∷ ids) ≡ (answer ∷ answers, t')
  unfolding erase_each
  erase_each-cons t t₁ t' id ids answer answers ran ran' =
      ap
        (λ (p : Bool × Table).
          (p.0 ∷ (erase_each capacity hash p.1 ids).0, (erase_each capacity hash p.1 ids).1))
        ran
      ∙ ap (λ (r : List Bool × Table). (answer ∷ r.0, r.1)) ran'

  insert_each_lem :
      (t : Table) (ids : List ℕ)
      → IsValid capacity hash cap t
      → ((q : ℕ) → Elem q ids → IsId q)
      → ((q : ℕ) → Elem q ids → find capacity hash t q ≡ none)
      → IsNodup ids
      → t.size + length ids ≤ capacity
      → (t' : Table) × (insert_each capacity hash t ids ≡ (map (λ _. true) ids, t'))
        × AllInserted t ids t'
  unfolding insert_each
  insert_each_lem t [] v nonzero absent distinct room = (
    t,
    refl,
    record { valid = v; grown = omega arith; there = λ q e. absurd e; others = λ q e. refl },
  )
  insert_each_lem t (id ∷ ids) v nonzero absent distinct room =
      let (t₁, ran, one) =
        insert_new capacity hash cap t id 1 (nonzero id (inl refl)) v (absent id (inl refl))
          (omega (arith, room)) in
      let (t', ran', rest) =
        insert_each_lem t₁ ids one.valid (λ q e. nonzero q (inr e))
          (λ q e. inserted_away one q (differs q e) ∙ absent q (inr e)) distinct.1
          (omega (arith, one.grown, room)) in
      (
        t',
        insert_each-cons t t₁ t' id ids true (map (λ _. true) ids) ran ran',
        record {
          valid = rest.valid;
          grown = omega (arith, rest.grown, one.grown);
          there = λ q e. elim e [
            | inl same ↦
                ap (find capacity hash t') same ∙ rest.others id distinct.0 ∙ inserted_here one
            | inr e' ↦ rest.there q e'
          ];
          others = λ q ne. rest.others q (λ e. ne (inr e)) ∙ inserted_away one q (λ s. ne (inl s));
        },
      )
    where
      differs : (q : ℕ) → Elem q ids → q ≢ id
      differs q e same = distinct.0 (subst (λ (k : ℕ). Elem k ids) same e)

  find_each_lem :
      (t : Table) (ids : List ℕ)
      → ((q : ℕ) → Elem q ids → find capacity hash t q ≡ some 1)
      → find_each capacity hash t ids ≡ map (λ _. some 1) ids
  unfolding find_each
  find_each_lem t [] there = refl
  find_each_lem t (id ∷ ids) there =
      ap₂ (λ (x : Option ℕ) (xs : List (Option ℕ)). x ∷ xs) (there id (inl refl))
        (find_each_lem t ids (λ q e. there q (inr e)))

  erase_each_lem :
      (t : Table) (ids : List ℕ)
      → IsValid capacity hash cap t
      → ((q : ℕ) → Elem q ids → find capacity hash t q ≡ some 1)
      → IsNodup ids
      → (t' : Table) × (erase_each capacity hash t ids ≡ (map (λ _. true) ids, t'))
        × (t'.size + length ids ≡ t.size)
  unfolding erase_each
  erase_each_lem t [] v there distinct = (t, refl, omega arith)
  erase_each_lem t (id ∷ ids) v there distinct =
      let (t₁, ran, one) = erase_present capacity hash cap t id 1 v (there id (inl refl)) in
      let (t', ran', shrunk) =
        erase_each_lem t₁ ids one.valid
          (λ q e.
            let apart = ne→== q id (λ same. distinct.0 (subst (λ (k : ℕ). Elem k ids) same e)) in
            let kept : find capacity hash t₁ q ≡ find capacity hash t q = one.reads q ∙ rw apart in
            kept ∙ there q (inr e))
          distinct.1 in
      (
        t',
        erase_each-cons t t₁ t' id ids true (map (λ _. true) ids) ran ran',
        omega (arith, shrunk, one.shrunk),
      )

  -- On a new index, with either pattern of ids and no more of them than the capacity and fewer
  -- than 2^54: every insertion succeeds and the size is then their number; after the insertions
  -- every look-up finds the value stored, and every erasure succeeds and leaves an index of size
  -- 0.
  pub run_index_lem :
      (keys values : ℕ → ℕ) (pattern_of_ids : IdPattern) (n : ℕ)
      → n ≤ capacity
      → n < 2 ^ 54
      → (t : Table) × (run_index_insert capacity hash keys values pattern_of_ids n
          ≡ (map (λ _. true) (make_ids pattern_of_ids n), t))
        × (t.size ≡ n)
        × (run_index_find capacity hash keys values pattern_of_ids n
            ≡ map (λ _. some 1) (make_ids pattern_of_ids n))
        × (t' : Table) × (run_index_erase capacity hash keys values pattern_of_ids n
            ≡ (map (λ _. true) (make_ids pattern_of_ids n), t'))
        × (t'.size ≡ 0)
  unfolding run_index_insert run_index_find run_index_erase
  run_index_lem keys values pattern_of_ids n room small =
      let ids = make_ids pattern_of_ids n in
      let (count, distinct) = make_ids-IsNodup pattern_of_ids n small in
      let (valid, bare) = new-IsValid capacity hash cap keys values in
      let size = new_size capacity hash keys values in
      let (t, ran, all) =
        insert_each_lem (Index.new capacity hash keys values) ids valid
          (make_ids-IsId pattern_of_ids n small) (λ q e. bare q) distinct
          (omega (arith, size, count, room)) in
      let index : (insert_each capacity hash (Index.new capacity hash keys values) ids).1 ≡ t =
        ap (λ (r : List Bool × Table). r.1) ran in
      let (t', ran', shrunk) = erase_each_lem t ids all.valid all.there distinct in
      (
        t,
        ran,
        omega (arith, all.grown, size, count),
        ap (λ (x : Table). find_each capacity hash x ids) index ∙ find_each_lem t ids all.there,
        t',
        ap (λ (x : Table). erase_each capacity hash x ids) index ∙ ran',
        omega (arith, shrunk, all.grown, size, count),
      )
