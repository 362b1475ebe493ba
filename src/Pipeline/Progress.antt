-- ===== src/Pipeline/Progress.antt =====
-- The loops of bench/bench_pipeline.cpp can always go on to their end: no interleaving blocks them.
use lowlat_matching_engine.Common.{
  ℕ, zero, suc, ◌+◌, ◌^◌, ◌≤◌, ◌<◌, ◌≡◌, refl, sym, ap, ap₂, ◌∙◌, inl, inr, arith, Option, some,
  List, [], ◌∷◌, ◌++◌, map, length, length-append, append_assoc, prefix, length-prefix, drop, min,
  add64, lt-cases,
}
use lowlat_matching_engine.Ring.Slice.{IsRingCapacity}
use lowlat_matching_engine.Ring.Calls.{contents, push_lem, pop_lem}
use lowlat_matching_engine.Ring.Batches.{push_many_lem, pop_many_lem}
use lowlat_matching_engine.Pipeline.{
  Pipeline, Producer, push_each, push_batches, Consumer, pop_each, pop_batches, apply_all, Step,
  produce, produce_many, consume, consume_many, Steps, start, then, begin,
}
use lowlat_matching_engine.Pipeline.Interleaving.{
  InOrder, InOrder-Step, begin-InOrder, InOrder-Steps,
}
use lowlat_matching_engine.Pipeline.Sequences.{map-append, length-map, apply_all-append}
use lowlat_matching_engine.Pipeline.Starts.{
  list_cases, one-apply_all, apply_all-first, Pushes, Pops, trans, map-make, array, starts,
}

module _ {C A E : Type 0} (source_of : A → C) (handle : E → A → Option E) (producer : Producer)
    (consumer : Consumer) (capacity : ℕ) (cap : IsRingCapacity capacity) (make : C → A)
    (makes : (c : C) → source_of (make c) ≡ c) where
  module _ (sources : List C) (e : E) (short : length sources < 2 ^ 64)
      (runs : (items : List A)
        → map source_of items ≡ sources
        → (e' : E) × (apply_all handle e items ≡ some e')) where
    -- The items at the front of the ring can be worked on.
    ready :
        {p : Pipeline C A E}
        (o : InOrder source_of handle producer consumer capacity cap sources e p) (xs ys : List A)
        → contents capacity cap p.queue ≡ xs ++ ys
        → (e' : E) × (apply_all handle p.engine xs ≡ some e')
    ready {p} o xs ys front =
        let behind = ys ++ map make p.to_push in
        let whole : map source_of (o.applied ++ (xs ++ behind)) ≡ sources =
          map-append source_of o.applied (xs ++ behind)
          ∙ ap (λ (q : List C). map source_of o.applied ++ q)
              (ap (map source_of) (sym (append_assoc xs ys (map make p.to_push)))
                ∙ map-append source_of (xs ++ ys) (map make p.to_push)
                ∙ ap₂ (λ (q r : List C). q ++ r) (ap (map source_of) (sym front))
                    (map-make source_of handle producer consumer capacity cap make makes p.to_push))
          ∙ sym o.split in
        let (e', ran) = runs (o.applied ++ (xs ++ behind)) whole in
        apply_all-first handle p.engine e' xs behind
          (sym (apply_all-append handle e p.engine o.applied (xs ++ behind) o.ran) ∙ ran)

    abbrev Round : Pipeline C A E → Pipeline C A E → Type 0
    Round = Step source_of handle producer consumer capacity (length sources)

    -- With an item in the ring the consumer advances.
    consumes :
        (c : Consumer)
        → consumer ≡ c
        → Pops c
        → {p : Pipeline C A E} → InOrder source_of handle producer consumer capacity cap sources e p
        → p.processed < length sources
        → (x : A) (xs : List A) → contents capacity cap p.queue ≡ x ∷ xs
        → (q : Pipeline C A E) × Round p q
          × (n : ℕ) × (0 < n)
          × (n ≤ length (contents capacity cap p.queue))
          × (q.processed ≡ add64 p.processed n)
    consumes pop_each is works {p} o more x xs front =
        let (e', on) = ready o (x ∷ []) xs front in
        elim (pop_lem capacity cap o.queue) [
          | inl (bare, failed) ↦ absurd (let z : ⊥ = cc in z)
          | inr (y, ys, all, r', popped, v', rest) ↦
              let same : y ≡ x = cc in
              (
                record p { queue = r'; engine = e'; processed = add64 p.processed 1 },
                consume y r' e' is more popped (
                    one-apply_all handle p.engine e' y
                      (ap (λ (z : A). apply_all handle p.engine (z ∷ [])) same ∙ on)),
                1,
                omega arith,
                omega (arith, ap (length {0}) front),
                refl,
              )
        ]
    consumes (pop_batches size) is works {p} o more x xs front =
        let (n, count, out, r', popped, v', taken, kept) =
          pop_many_lem capacity cap p.batch size o.queue in
        let (e', on) = ready o (prefix out 0 n) (contents capacity cap r') taken in
        (
          record p { queue = r'; batch = out; engine = e'; processed = add64 p.processed n },
          consume_many size n out r' e' is more popped on,
          n,
          omega (arith, count, works, ap (length {0}) front),
          omega (arith, count),
          refl,
        )

    -- With an empty ring and something left the producer advances.
    produces :
        (m : Producer)
        → producer ≡ m
        → Pushes m
        → {p : Pipeline C A E} → InOrder source_of handle producer consumer capacity cap sources e p
        → contents capacity cap p.queue ≡ []
        → 0 < length p.to_push
        → (q : Pipeline C A E) × Round p q
          × (q.processed ≡ p.processed)
          × (x : A) × (xs : List A) × (contents capacity cap q.queue ≡ x ∷ xs)
    produces push_each is works {p} o bare some_left = elim (list_cases p.to_push) [
      | inl none_left ↦ absurd (omega (arith, some_left, ap (length {0}) none_left))
      | inr (c, rest, left) ↦ elim (push_lem capacity cap (make c) o.queue) [
        | inl (full, refused) ↦ absurd (omega (arith, full, ap (length {0}) bare, cap.many))
        | inr (room, r', pushed, v', grown) ↦ (
          record p { queue = r'; to_push = rest },
          produce (make c) rest r' is (left ∙ ap (λ (d : C). d ∷ rest) (sym (makes c))) pushed,
          refl,
          make c,
          [],
          grown ∙ ap (λ (q : List A). q ++ make c ∷ []) bare,
        )
      ]
    ]
    produces (push_batches size) is works {p} o bare some_left = elim (list_cases p.to_push) [
      | inl none_left ↦ absurd (omega (arith, some_left, ap (length {0}) none_left))
      | inr (c, rest, left) ↦
          let input =
            array source_of handle producer consumer capacity cap make makes (make c)
              (map make p.to_push) in
          let (n, count, r', pushed, v', grown) =
            push_many_lem capacity cap input (min size (length p.to_push)) o.queue in
          elim (list_cases (contents capacity cap r')) [
            | inl none_there ↦ absurd (
                omega (
                  arith,
                  count,
                  works,
                  some_left,
                  cap.many,
                  ap (length {0}) bare,
                  ap (length {0}) (sym none_there ∙ grown),
                  length-append (contents capacity cap p.queue) (prefix input 0 n),
                  length-prefix input 0 n,
                ))
            | inr (x, xs, front) ↦ (
              record p { queue = r'; to_push = drop n p.to_push },
              produce_many size n input r' is some_left
                  (starts source_of handle producer consumer capacity cap make makes (make c)
                    p.to_push)
                  pushed,
              refl,
              x,
              xs,
              front,
            )
          ]
    ]

    all_counted :
        {p : Pipeline C A E}
        → InOrder source_of handle producer consumer capacity cap sources e p
        → p.processed + (length (contents capacity cap p.queue) + length p.to_push) ≡ length sources
    all_counted {p} o = omega (
      arith,
      o.counted,
      ap (length {0}) o.split,
      length-append (map source_of o.applied)
          (map source_of (contents capacity cap p.queue) ++ p.to_push),
      length-append (map source_of (contents capacity cap p.queue)) p.to_push,
      length-map source_of o.applied,
      length-map source_of (contents capacity cap p.queue),
    )

    module _ (pushes : Pushes producer) (pops : Pops consumer) where
      -- Some rounds lead to one in which the consumer advances.
      advances :
          {p : Pipeline C A E}
          → InOrder source_of handle producer consumer capacity cap sources e p
          → p.processed < length sources
          → (q : Pipeline C A E) × Steps source_of handle producer consumer capacity
              (length sources)
              p
              q
            × InOrder source_of handle producer consumer capacity cap sources e q
            × (p.processed < q.processed)
      advances {p} o more = elim (list_cases (contents capacity cap p.queue)) [
        | inr (x, xs, front) ↦ from start o more x xs front refl
        | inl bare ↦
            let (q, step, kept, x, xs, front) =
              produces producer refl pushes o bare
                (omega (arith, all_counted o, more, ap (length {0}) bare)) in
            let o' = InOrder-Step source_of handle producer consumer capacity cap short o step in
            from (then start step) o' (omega (arith, kept, more)) x xs front kept
      ]
        where
          from :
              {p' : Pipeline C A E}
              → Steps source_of handle producer consumer capacity (length sources) p p'
              → InOrder source_of handle producer consumer capacity cap sources e p'
              → p'.processed < length sources
              → (x : A) (xs : List A) → contents capacity cap p'.queue ≡ x ∷ xs
              → p'.processed ≡ p.processed
              → (q : Pipeline C A E) × Steps source_of handle producer consumer capacity
                  (length sources)
                  p
                  q
                × InOrder source_of handle producer consumer capacity cap sources e q
                × (p.processed < q.processed)
          from {p'} steps o' more' x xs front kept =
              let (q, step, n, some_more, there, count) =
                consumes consumer refl pops o' more' x xs front in
              let o'' =
                InOrder-Step source_of handle producer consumer capacity cap short o' step in
              (
                q,
                then steps step,
                o'',
                omega (arith, kept, some_more, count, there, all_counted o', short),
              )

      finishes :
          (k : ℕ) {p : Pipeline C A E}
          → InOrder source_of handle producer consumer capacity cap sources e p
          → length sources ≤ p.processed + k
          → (q : Pipeline C A E) × Steps source_of handle producer consumer capacity
              (length sources)
              p
              q
            × (q.processed ≡ length sources)
      finishes zero {p} o fuel = (p, start, omega (arith, fuel, all_counted o))
      finishes (suc k) {p} o fuel = elim (lt-cases p.processed (length sources)) [
        | inr done ↦ (p, start, omega (arith, done, all_counted o))
        | inl more ↦
            let (q, steps, o', grown) = advances o more in
            let (r, rest, done) = finishes k o' (omega (arith, fuel, grown)) in
            (r, trans source_of handle producer consumer steps rest, done)
      ]

      pub Steps-finish :
          {cells batch : ℕ → A} {p : Pipeline C A E}
          → Steps source_of handle producer consumer capacity
              (length sources)
              (begin cells batch sources e)
              p
          → (q : Pipeline C A E) × Steps source_of handle producer consumer capacity
              (length sources)
              p
              q
            × (q.processed ≡ length sources)
      Steps-finish {cells} {batch} steps =
          finishes (length sources)
            (InOrder-Steps source_of handle producer consumer capacity cap short
              (begin-InOrder source_of handle producer consumer capacity cap cells batch sources e)
              steps)
            (omega arith)
