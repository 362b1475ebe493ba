-- ===== src/Pipeline/Benchmarks.antt =====
-- The benchmarks of bench/bench_pipeline.cpp: what their consumers work on, and how each run ends.
use mathlib.Core.Path.{subst, subst₂}
use lowlat_matching_engine.Common.{
  ℕ, zero, suc, ◌+◌, ◌*◌, ◌%◌, ◌^◌, ◌<◌, ◌≡◌, refl, sym, ap, ◌∙◌, arith, Option, none, some, List,
  [], ◌∷◌, ◌++◌, map, length, length-append, append_assoc, append_nil, Option-cases, inl, inr,
}
use lowlat_matching_engine.Types.{OrderCommand}
use lowlat_matching_engine.Sink.{Sink}
use lowlat_matching_engine.Index.Probing.{IsCapacity}
use lowlat_matching_engine.Ring.Slice.{IsRingCapacity}
use lowlat_matching_engine.Pipeline.{
  Engine, Pipeline, Producer, Consumer, apply_all, apply_command, run_commands, Steps, begin,
}
use lowlat_matching_engine.Pipeline.Commands.{AreCommands, IsSound, run_commands-IsSound}
use lowlat_matching_engine.Pipeline.Interleaving.{Steps_lem}
use lowlat_matching_engine.Pipeline.Sequences.{some_inj}
use lowlat_matching_engine.Pipeline.Progress.{Steps-finish}
use lowlat_matching_engine.Pipeline.Starts.{Pushes, Pops, trans}

-- `commands[i]`
abbrev pub get_elem? : {A : Type 0} → List A → ℕ → Option A
get_elem? [] i = none
get_elem? (x ∷ xs) zero = some x
get_elem? (x ∷ xs) (suc i) = get_elem? xs i

-- The consumer of a ring of indices works on `commands[i]`.
unfoldable pub apply_index : {A E : Type 0} → (E → A → Option E) → List A → E → ℕ → Option E
apply_index handle commands e i = elim (get_elem? commands i) [
  | none ↦ none
  | some command ↦ handle e command
]

-- The consumer of a benchmark of the ring alone only looks at the items: here it notes them down.
unfoldable pub observe : {A : Type 0} → List A → A → Option (List A)
observe seen x = some (seen ++ x ∷ [])

-- `std::uint32_t i` from `i` on, with the rounds that are left.
unfoldable pub indices : ℕ → ℕ → List ℕ
indices zero i = []
indices (suc rounds) i = i ∷ indices rounds ((i + 1) % 2 ^ 32)

-- `items[i] = static_cast<std::uint64_t>(i + 1)`
unfoldable pub numbers : ℕ → ℕ → List ℕ
numbers zero i = []
numbers (suc rounds) i = (i + 1) % 2 ^ 64 ∷ numbers rounds (i + 1)

length-indices : (n i : ℕ) → length (indices n i) ≡ n
unfolding indices
length-indices zero i = refl
length-indices (suc n) i = omega (arith, length-indices n ((i + 1) % 2 ^ 32))

get_elem?-append :
    {A : Type 0} (xs ys : List A) (x : A) → get_elem? (xs ++ x ∷ ys) (length xs) ≡ some x
get_elem?-append [] ys x = refl
get_elem?-append (y ∷ xs) ys x = get_elem?-append xs ys x

length-snoc : {A : Type 0} (xs : List A) (x : A) → length (xs ++ x ∷ []) ≡ length xs + 1
length-snoc [] x = omega arith
length-snoc (y ∷ xs) x = omega (arith, length-snoc xs x)

module _ {A E : Type 0} (handle : E → A → Option E) where
  -- Working on the elements behind `before` by their indices is working on them.
  indexed :
      (before commands : List A) (e : E)
      → length (before ++ commands) < 2 ^ 32
      → apply_all
          (apply_index handle (before ++ commands))
          e
          (indices (length commands) (length before))
        ≡ apply_all handle e commands
  unfolding apply_all apply_index indices
  indexed before [] e short = refl
  indexed before (c ∷ commands) e short =
      let rest = λ (e₁ : E).
        subst₂
          (λ (q : List A) (i : ℕ).
            apply_all (apply_index handle q) e₁ (indices (length commands) i)
            ≡ apply_all handle e₁ commands)
          same next
          (indexed (before ++ c ∷ []) commands e₁ (omega (arith, ap (length {0}) same, short))) in
      elim (Option-cases (handle e c)) [
        | inl lost ↦ rw (apply_all, apply_index, at_i, lost)
        | inr (e₁, on) ↦
            let step : apply_all (apply_index handle (before ++ c ∷ commands)) e
                  (indices (length (c ∷ commands)) (length before))
                ≡ apply_all (apply_index handle (before ++ c ∷ commands)) e₁
                    (indices (length commands) ((length before + 1) % 2 ^ 32)) =
              rw (apply_all, apply_index, at_i, on) in
            let step' : apply_all handle e (c ∷ commands) ≡ apply_all handle e₁ commands =
              rw (apply_all, on) in
            step ∙ rest e₁ ∙ sym step'
      ]
    where
      at_i : get_elem? (before ++ c ∷ commands) (length before) ≡ some c
      at_i = get_elem?-append before commands c

      same : (before ++ c ∷ []) ++ commands ≡ before ++ c ∷ commands
      same = append_assoc before (c ∷ []) commands

      next : length (before ++ c ∷ []) ≡ (length before + 1) % 2 ^ 32
      next = omega (arith, length-snoc before c, short, length-append before (c ∷ commands))

observed : {A : Type 0} (seen xs : List A) → apply_all observe seen xs ≡ some (seen ++ xs)
unfolding apply_all observe
observed {A} seen [] = ap (λ (q : List A). some q) (sym (append_nil seen))
observed {A} seen (x ∷ xs) =
    observed (seen ++ x ∷ []) xs ∙ ap (λ (q : List A). some q) (append_assoc seen (x ∷ []) xs)

map_id : {A : Type 0} (xs : List A) → map (λ x. x) xs ≡ xs
map_id [] = refl
map_id (x ∷ xs) = ap (λ (q : List _). x ∷ q) (map_id xs)

abbrev pub itself : {A : Type 0} → A → A
itself x = x

module _ (producer : Producer) (consumer : Consumer) (capacity : ℕ)
    (cap : IsRingCapacity capacity) where
  -- Where the items are pushed themselves, the run ends with what working on them in order gives.
  items_lem :
      {A E : Type 0} (handle : E → A → Option E) {items : List A} {e : E} {cells batch : ℕ → A}
      {q : Pipeline A A E}
      → length items < 2 ^ 64
      → Steps itself handle producer consumer capacity (length items) (begin cells batch items e) q
      → q.processed ≡ length items
      → apply_all handle e items ≡ some q.engine
  items_lem handle {e = e} short steps done =
      let (xs, same, ran) =
        Steps_lem itself handle producer consumer capacity cap short steps done in
      ap (apply_all handle e) (sym same ∙ map_id xs) ∙ ran

  -- When a consumer that only looks at the items has processed fewer than 2^64 of them, whatever
  -- the interleaving and the batches, it has looked at the items pushed, in order.
  pub queue_only_lem :
      {A : Type 0} {items : List A} {cells batch : ℕ → A} {q : Pipeline A A (List A)}
      → length items < 2 ^ 64
      → Steps itself observe producer consumer capacity
          (length items)
          (begin cells batch items [])
          q
      → q.processed ≡ length items
      → q.engine ≡ items
  queue_only_lem {items = items} {q = q} short steps done =
      some_inj (sym (items_lem observe short steps done) ∙ observed [] items)

  -- A pipeline that sends the indices of fewer than 2^32 commands in place of the commands ends,
  -- when as many are processed as there are, with what working on the commands themselves in order
  -- gives.
  pub index_queue_lem :
      {A E : Type 0} (handle : E → A → Option E) (commands : List A) {e : E} {cells batch : ℕ → ℕ}
      {q : Pipeline ℕ ℕ E}
      → length commands < 2 ^ 32
      → Steps itself
          (apply_index handle commands)
          producer
          consumer
          capacity
          (length commands)
          (begin cells batch (indices (length commands) 0) e)
          q
      → q.processed ≡ length commands
      → apply_all handle e commands ≡ some q.engine
  index_queue_lem {A} handle commands {e} {cells} {batch} {q} short steps done =
      let count = length-indices (length commands) 0 in
      sym (indexed handle [] commands e short)
      ∙ items_lem (apply_index handle commands) (omega (arith, count, short))
          (subst
            (λ (n : ℕ).
              Steps itself (apply_index handle commands) producer consumer capacity n
                (begin cells batch (indices (length commands) 0) e) q)
            (sym count) steps)
          (done ∙ sym count)

  module _ (max_orders : ℕ) (hash : ℕ → ℕ) (order_cap : IsCapacity (2 * max_orders)) {S : Type 0}
      (sink : Sink S) where
    -- From every state that the two threads reach on fewer than 2^64 commands with ids other than
    -- 0 and 64-bit quantities, where the batches are not empty and the book they start with is
    -- well formed with every bid below every ask, they can go on until as many commands are
    -- processed as there are; the book and the executions are then those of the commands applied
    -- one after another, and the book is well formed with every bid below every ask.
    pub raw_exec_lem :
        {commands : List OrderCommand} {e : Engine S} {cells batch : ℕ → OrderCommand}
        {p : Pipeline OrderCommand OrderCommand (Engine S)}
        → length commands < 2 ^ 64
        → AreCommands commands
        → IsSound max_orders hash order_cap e.book
        → Pushes producer
        → Pops consumer
        → Steps itself
            (apply_command max_orders hash sink)
            producer
            consumer
            capacity
            (length commands)
            (begin cells batch commands e)
            p
        → (q : Pipeline OrderCommand OrderCommand (Engine S)) × Steps itself
            (apply_command max_orders hash sink)
            producer
            consumer
            capacity
            (length commands)
            p
            q
          × (q.processed ≡ length commands)
          × (run_commands max_orders hash sink e commands ≡ some q.engine)
          × IsSound max_orders hash order_cap q.engine.book
    raw_exec_lem {commands} {e} {cells} {batch} short words s pushes pops steps =
        let (e', ran, s') =
          run_commands-IsSound max_orders hash order_cap sink e commands s words in
        let runs : (items : List OrderCommand)
            → map itself items ≡ commands
            → (z : Engine S) × (apply_all (apply_command max_orders hash sink) e items ≡ some z) =
          λ (items : List OrderCommand) (same : map itself items ≡ commands). (
            e',
            ap (apply_all (apply_command max_orders hash sink) e) (sym (map_id items) ∙ same) ∙ ran,
          ) in
        let (q, more, done) =
          Steps-finish itself (apply_command max_orders hash sink) producer consumer capacity cap
            itself (λ c. refl) commands e short runs pushes pops steps in
        let is =
          items_lem (apply_command max_orders hash sink) short
            (trans itself (apply_command max_orders hash sink) producer consumer steps more) done in
        (
          q,
          more,
          done,
          is,
          subst (λ (x : Engine S). IsSound max_orders hash order_cap x.book)
              (some_inj (sym ran ∙ is)) s',
        )
