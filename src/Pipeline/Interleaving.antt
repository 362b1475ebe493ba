-- ===== src/Pipeline/Interleaving.antt =====
-- Whatever the interleaving, the pipelines of bench/bench_pipeline.cpp work on the items in order.
use mathlib.Core.Path.{subst}
use lowlat_matching_engine.Common.{
  ℕ, ◌+◌, ◌%◌, ◌^◌, ◌<◌, ◌≡◌, refl, sym, ap, ◌∙◌, arith, Option, some, List, [], ◌∷◌, ◌++◌, map,
  length, length-append, append_assoc, append_nil, prefix, length-prefix, drop, min,
}
use lowlat_matching_engine.Ring.{Ring}
use lowlat_matching_engine.Ring.Slice.{IsRingCapacity}
use lowlat_matching_engine.Ring.Calls.{contents, IsRing}
use lowlat_matching_engine.Ring.Outcomes.{
  push-true, push-false, pop-some, pop-none, push_many-pushed, pop_many-popped,
}
use lowlat_matching_engine.Pipeline.{
  Pipeline, Producer, Consumer, apply_all, Step, produce, produce_full, produce_many, consume,
  consume_empty, consume_many, Steps, start, then, begin,
}
use lowlat_matching_engine.Pipeline.Sequences.{
  map-append, length-map, length-zero, prefix-drop, apply_all-append, apply_all-one,
}

module _ {C A E : Type 0} (source_of : A → C) (handle : E → A → Option E) (producer : Producer)
    (consumer : Consumer) (capacity : ℕ) (cap : IsRingCapacity capacity) where
  -- The sources are those of the items worked on, then of those in the ring, then those not pushed.
  pub record InOrder (sources : List C) (e : E) (p : Pipeline C A E) : Type 0 where
    pub applied : List A
    pub split :
        sources
        ≡ map source_of applied ++ (map source_of (contents capacity cap p.queue) ++ p.to_push)
    pub ran : apply_all handle e applied ≡ some p.engine
    pub counted : p.processed ≡ length applied
    pub queue : IsRing capacity cap p.queue

  -- Pushing the sources of some items in front of those that stay.
  pushed_split :
      {sources : List C} {e : E} {p : Pipeline C A E} (o : InOrder sources e p) (queue : Ring A)
      (xs : List A) (rest : List C)
      → contents capacity cap queue ≡ contents capacity cap p.queue ++ xs
      → map source_of xs ++ rest ≡ p.to_push
      → sources ≡ map source_of o.applied ++ (map source_of (contents capacity cap queue) ++ rest)
  pushed_split {p = p} o queue xs rest grown left =
      o.split
      ∙ ap (λ (q : List C). map source_of o.applied ++ q)
          (ap (λ (q : List C). map source_of (contents capacity cap p.queue) ++ q) (sym left)
            ∙ sym (
                append_assoc (map source_of (contents capacity cap p.queue)) (map source_of xs)
                  rest)
            ∙ ap (λ (q : List C). q ++ rest)
                (sym (map-append source_of (contents capacity cap p.queue) xs)
                  ∙ ap (map source_of) (sym grown)))

  -- Working on the items that were taken.
  popped_split :
      {sources : List C} {e : E} {p : Pipeline C A E} (o : InOrder sources e p) (queue : Ring A)
      (xs : List A)
      → contents capacity cap p.queue ≡ xs ++ contents capacity cap queue
      → sources
        ≡ map source_of (o.applied ++ xs)
          ++ (map source_of (contents capacity cap queue) ++ p.to_push)
  popped_split {p = p} o queue xs taken =
      let after = map source_of (contents capacity cap queue) ++ p.to_push in
      o.split
      ∙ ap (λ (q : List C). map source_of o.applied ++ q)
          (ap (λ (q : List A). map source_of q ++ p.to_push) taken
            ∙ ap (λ (q : List C). q ++ p.to_push)
                (map-append source_of xs (contents capacity cap queue))
            ∙ append_assoc (map source_of xs) (map source_of (contents capacity cap queue))
                p.to_push)
      ∙ sym (append_assoc (map source_of o.applied) (map source_of xs) after)
      ∙ ap (λ (q : List C). q ++ after) (sym (map-append source_of o.applied xs))

  same_pipeline :
      {sources : List C} {e : E} {p : Pipeline C A E}
      → InOrder sources e p
      → InOrder sources e (record p { queue = p.queue })
  same_pipeline o = o

  -- No more items are worked on than there are sources.
  count_le :
      (sources : List C) (xs : List A) (rest : List C)
      → sources ≡ map source_of xs ++ rest
      → length xs + length rest ≡ length sources
  count_le sources xs rest split =
      omega (
        arith,
        ap (length {0}) split,
        length-append (map source_of xs) rest,
        length-map source_of xs,
      )

  taken_InOrder :
      {sources : List C} {e : E} {p : Pipeline C A E}
      → length sources < 2 ^ 64
      → InOrder sources e p
      → (queue : Ring A) (xs : List A) (batch : ℕ → A) (engine : E) (n : ℕ)
      → IsRing capacity cap queue
      → contents capacity cap p.queue ≡ xs ++ contents capacity cap queue
      → length xs ≡ n
      → apply_all handle p.engine xs ≡ some engine
      → InOrder sources e (record p {
        queue = queue;
        batch = batch;
        engine = engine;
        processed = (p.processed + n) % 2 ^ 64;
      })
  taken_InOrder {sources} {e} {p} short o queue xs batch engine n v taken count on =
      let split = popped_split o queue xs taken in
      let total =
        count_le sources (o.applied ++ xs)
          (map source_of (contents capacity cap queue) ++ p.to_push) split in
      record {
        applied = o.applied ++ xs;
        split = split;
        ran = apply_all-append handle e p.engine o.applied xs o.ran ∙ on;
        counted = omega (arith, o.counted, length-append o.applied xs, total, count, short);
        queue = v;
      }

  pub InOrder-Step :
      {sources : List C} {e : E} {p q : Pipeline C A E}
      → length sources < 2 ^ 64
      → InOrder sources e p
      → Step source_of handle producer consumer capacity (length sources) p q
      → InOrder sources e q
  InOrder-Step {sources} {e} {p} short o (produce x rest queue mode left pushed) =
      let (v, grown) = push-true capacity cap o.queue x queue pushed in
      record {
        applied = o.applied;
        split = pushed_split o queue (x ∷ []) rest grown (sym left);
        ran = o.ran;
        counted = o.counted;
        queue = v;
      }
  InOrder-Step {sources} {e} {p} short o (produce_full x rest queue mode left refused) =
      subst (λ (r : Ring A). InOrder sources e (record p { queue = r }))
        (sym (push-false capacity cap o.queue x queue refused)) (same_pipeline o)
  InOrder-Step {sources} {e} {p} short o (produce_many size n input queue mode more starts pushed) =
      let (v, count, grown) =
        push_many-pushed capacity cap o.queue input (min size (length p.to_push)) n queue pushed in
      record {
        applied = o.applied;
        split =
            pushed_split o queue (prefix input 0 n) (drop n p.to_push) grown
              (prefix-drop source_of input 0 n p.to_push (omega (arith, count)) starts);
        ran = o.ran;
        counted = o.counted;
        queue = v;
      }
  InOrder-Step {sources} {e} {p} short o (consume x queue engine mode more popped on) =
      let (v, taken) = pop-some capacity cap o.queue x queue popped in
      taken_InOrder short o queue (x ∷ []) p.batch engine 1 v taken refl
        (apply_all-one handle p.engine engine x on)
  InOrder-Step {sources} {e} {p} short o (consume_empty queue mode more failed) =
      subst (λ (r : Ring A). InOrder sources e (record p { queue = r }))
        (sym (pop-none capacity cap o.queue queue failed).0) (same_pipeline o)
  InOrder-Step {sources} {e} {p} short o
        (consume_many size n batch queue engine mode more popped on) =
      let (v, count, taken) =
        pop_many-popped capacity cap o.queue p.batch size n batch queue popped in
      taken_InOrder short o queue (prefix batch 0 n) batch engine n v taken
        (length-prefix batch 0 n) on

  pub InOrder-Steps :
      {sources : List C} {e : E} {p q : Pipeline C A E}
      → length sources < 2 ^ 64
      → InOrder sources e p
      → Steps source_of handle producer consumer capacity (length sources) p q
      → InOrder sources e q
  InOrder-Steps short o start = o
  InOrder-Steps short o (then before step) = InOrder-Step short (InOrder-Steps short o before) step

  pub begin-InOrder :
      (cells batch : ℕ → A) (sources : List C) (e : E)
      → InOrder sources e (begin cells batch sources e)
  unfolding apply_all
  begin-InOrder cells batch sources e = record {
    applied = [];
    split = refl;
    ran = refl;
    counted = refl;
    queue = record { head_word = omega arith; tail_word = omega arith; fits = omega arith };
  }

  -- Whatever the interleaving of the rounds of the two threads, item by item or in batches, from
  -- the start with a new ring and fewer than 2^64 sources: when as many items are processed as
  -- there are sources, the consumer has worked on items made from the sources, in their order.
  pub Steps_lem :
      {sources : List C} {e : E} {cells batch : ℕ → A} {q : Pipeline C A E}
      → length sources < 2 ^ 64
      → Steps source_of handle producer consumer capacity
          (length sources)
          (begin cells batch sources e)
          q
      → q.processed ≡ length sources
      → (items : List A) × (map source_of items ≡ sources)
        × (apply_all handle e items ≡ some q.engine)
  Steps_lem {sources} {e} {cells} {batch} {q} short steps done =
      let o = InOrder-Steps short (begin-InOrder cells batch sources e) steps in
      let rest = map source_of (contents capacity cap q.queue) ++ q.to_push in
      let nothing : rest ≡ [] =
        length-zero rest
          (omega (arith, o.counted, done, count_le sources o.applied rest o.split)) in
      (
        o.applied,
        sym (
            o.split
            ∙ ap (λ (x : List C). map source_of o.applied ++ x) nothing
            ∙ append_nil (map source_of o.applied)),
        o.ran,
      )
