-- ===== src/Profile/FullMatch.antt =====
-- The full-match workload: what the profilers of tools/profile_full_match.cpp return, and what the same
-- commands of src/workload.hpp leave behind.
use mathlib.Core.Path.{subst}
use lowlat_matching_engine.Common.{
  ℕ, zero, suc, ◌+◌, ◌*◌, ◌^◌, ◌≤◌, ◌<◌, ◌≡◌, refl, ap, ◌∙◌, inl, inr, arith, true, Bool-cases,
  Option-cases, some, List, [], ◌∷◌, ◌++◌, length, length-append, add64, update, ◌==◌,
}
use lowlat_matching_engine.Types.{Side, Execution, OrderCommand, add_limit}
use lowlat_matching_engine.Index.{fast_hash}
use lowlat_matching_engine.Index.Probing.{IsCapacity}
use lowlat_matching_engine.Sink.{
  Sink, emit, buffer_emplace_back, vector_sink, null_sink, ExecutionBuffer, buffer_sink, reserve,
  no_execution,
}
use lowlat_matching_engine.Clob
use lowlat_matching_engine.Clob.{Clob, Outcome, submit_limit_order}
use lowlat_matching_engine.Clob.Invariant.{InRange}
use lowlat_matching_engine.Clob.View.{Represents, Represents_congr}
use lowlat_matching_engine.Clob.Create.{empty_view, new-Represents}
use lowlat_matching_engine.Clob.Count.{active_orders-resting}
use lowlat_matching_engine.Workload.{generate, make_full_match_commands}
use lowlat_matching_engine.Workload.OneLevel.{asks_at, resting-asks_at}
use lowlat_matching_engine.Workload.OneLevel.Orders.{Waits, Took}
use lowlat_matching_engine.Pipeline.{Engine, apply_all, apply_command, run_commands}
use lowlat_matching_engine.Pipeline.Sequences.{some_inj, apply_all-append}
use lowlat_matching_engine.Profile.{
  ask, bid, submit_each, run_profile_full_match, profile_orders, book_orders, profile_book,
  profile_full_match, profile_full_match_no_exec, profile_full_match_raw_exec,
}
use lowlat_matching_engine.Profile.Loops.{queue_of, trades_of, length-trades_of, asks_lem, bids_lem}

emit-length : (s es : List Execution) → length (emit vector_sink s es) ≡ length s + length es
unfolding emit
emit-length s [] = omega arith
emit-length s (e ∷ es) = omega (arith, emit-length (s ++ e ∷ []) es, length-append s (e ∷ []))

pub emit-size :
    (b : ExecutionBuffer) (es : List Execution)
    → b.size + length es < 2 ^ 64
    → (emit buffer_sink b es).size ≡ b.size + length es
unfolding emit buffer_emplace_back
emit-size b [] h = omega arith
emit-size b (e ∷ es) h =
    let next : add64 b.size 1 ≡ b.size + 1 = omega (arith, h) in
    let rest =
      emit-size (record b { cells = update b.cells b.size e; size = add64 b.size 1 }) es
        (omega (arith, next, h)) in
    rest ∙ omega (arith, next)

module _ (max_orders : ℕ) (hash : ℕ → ℕ) (cap : IsCapacity (2 * max_orders)) where
  -- No order rests, and 10000 is a price of the book.
  pub record IsBare (c : Clob) : Type 0 where
    pub stored : Represents max_orders hash cap c empty_view
    pub range : InRange c 10000

  no_asks : {c : Clob} → IsBare c → Waits max_orders hash cap 10000 c []
  no_asks {c} b = record {
    stored =
        Represents_congr max_orders hash cap c empty_view (asks_at 10000 []) (λ s p i. same s p)
          b.stored;
    range = b.range;
  }
    where
      same : (s : Side) (p : ℕ) → asks_at 10000 [] s p ≡ []
      same s p = ground arith

  pub Waits-empty :
      (c : Clob) → Waits max_orders hash cap 10000 c [] → Clob.empty max_orders hash c ≡ true
  Waits-empty c w =
      (active_orders-resting max_orders hash cap w.stored).2.1
        (omega (arith, resting-asks_at c.min_price c.max_price 10000 []))

  module _ {S : Type 0} (sink : Sink S) where
    -- Both loops, one after the other.
    pub both_loops :
        (n : ℕ) (c : Clob) {R : Type 0} (preload : Sink R) (before : R) (executions : S)
        → IsBare c
        → n ≤ max_orders
        → (asks : Outcome R) × (submit_each max_orders hash preload ask n 0 c before ≡ some asks)
          × (asks.accepted ≡ true)
          × (asks.executions ≡ before)
          × (bids : Outcome S) × (submit_each max_orders hash sink (bid n) n 0 asks.book executions
              ≡ some bids)
          × Took max_orders hash cap sink 10000 bids [] (emit sink executions (trades_of n n 0))
    both_loops n c preload before executions b few =
        let (asks, ran, took) =
          asks_lem max_orders hash cap preload n 0 c before (no_asks b) (omega (arith, few)) in
        let waits =
          subst (λ (k : ℕ). Waits max_orders hash cap 10000 asks.book (queue_of k 0))
            (let e : 0 + n ≡ n = omega arith in e) took.waits in
        let (bids, ran', took') =
          bids_lem max_orders hash cap sink n n 0 asks.book executions waits (omega arith) few in
        (asks, ran, took.accepted, took.reports, bids, ran', took')

    -- On a well-formed book in which no order rests and 10000 is a price, with room for as many
    -- orders as each loop submits, the profiler runs to its end and returns 0, so that all its
    -- checks pass, where the sink counts the trades of the buys with the sells, oldest first, as
    -- expected.
    pub run_profile_full_match_lem :
        (size : S → ℕ) (executions : S) (expected n : ℕ) (c : Clob)
        → IsBare c
        → n ≤ max_orders
        → size (emit sink executions (trades_of n n 0)) ≡ expected
        → run_profile_full_match max_orders hash sink size executions expected n c ≡ some 0
    unfolding run_profile_full_match
    run_profile_full_match_lem size executions expected n c b few count =
        let (asks, ran, yes_it, same, bids, ran', took) =
          both_loops n c null_sink tt executions b few in
        let counted : size bids.executions == expected ≡ true =
          (let e = ap size took.reports ∙ count in ground (arith, e)) in
        let bare = Waits-empty bids.book took.waits in
        rw (run_profile_full_match, ran, yes_it, ran', took.accepted, counted, bare)

    -- The commands of a loop whose orders are all accepted, applied by the consumer of a pipeline.
    submit_each-apply_all :
        (order : ℕ → OrderCommand)
        → ((i : ℕ) → (order i).type ≡ add_limit)
        → (rounds i : ℕ) (c : Clob) (executions : S) (o : Outcome S)
        → submit_each max_orders hash sink order rounds i c executions ≡ some o
        → o.accepted ≡ true
        → apply_all
            (apply_command max_orders hash sink)
            (record { book = c; executions = executions })
            (generate order rounds i)
          ≡ some (record { book = o.book; executions = o.executions })
    unfolding submit_each apply_all apply_command generate
    submit_each-apply_all order kind zero i c executions o ran yes_it =
        ap (λ (x : Outcome S). some (record { book = x.book; executions = x.executions }))
          (some_inj ran)
    submit_each-apply_all order kind (suc rounds) i c executions o ran yes_it =
        elim (Option-cases (
          submit_limit_order max_orders hash sink c (order i).order_id (order i).side
            (order i).price (order i).qty executions)) [
              | inl lost ↦ absurd (ground (arith, lost, ran))
              | inr (o₁, on) ↦ elim (Bool-cases o₁.accepted) [
                | inl fine ↦
                    let rest =
                      submit_each-apply_all order kind rounds (i + 1) o₁.book o₁.executions o
                        (ground (arith, on, fine, ran)) yes_it in
                    rw (apply_all, apply_command, kind i, on) rest
                | inr bad ↦
                    let same : some o₁ ≡ some o = ground (arith, on, bad, ran) in
                    let e : o₁.accepted ≡ true =
                      ap (λ (x : Outcome S). x.accepted) (some_inj same) ∙ yes_it in
                    absurd (ground (arith, bad, e))
              ]
            ]

    -- The full-match commands applied to a bare book with room for the sells leave it empty, with the
    -- executions of that many matches.
    pub full_match_commands_lem :
        (n : ℕ) (c : Clob) (executions : S)
        → IsBare c
        → n ≤ max_orders
        → (e : Engine S) × (run_commands max_orders hash sink
              (record { book = c; executions = executions })
              (make_full_match_commands n)
            ≡ some e)
          × (e.executions ≡ emit sink executions (trades_of n n 0))
          × (Clob.empty max_orders hash e.book ≡ true)
    unfolding make_full_match_commands
    full_match_commands_lem n c executions b few =
        let (asks, ran, yes_it, same, bids, ran', took) =
          both_loops n c sink executions executions b few in
        let first = submit_each-apply_all ask (λ i. refl) n 0 c executions asks ran yes_it in
        let second =
          submit_each-apply_all (bid n) (λ i. refl) n 0 asks.book executions bids ran'
            took.accepted in
        (
          record { book = bids.book; executions = bids.executions },
          apply_all-append (apply_command max_orders hash sink)
                (record { book = c; executions = executions })
                (record { book = asks.book; executions = asks.executions }) (generate ask n 0)
                (generate (bid n) n 0) first
              ∙ ap
                  (λ (x : S).
                    apply_all (apply_command max_orders hash sink)
                      (record { book = asks.book; executions = x }) (generate (bid n) n 0))
                  same
              ∙ second,
          took.reports,
          Waits-empty bids.book took.waits,
        )

pub vector_count : (n : ℕ) → length (emit vector_sink [] (trades_of n n 0)) ≡ n
vector_count n = emit-length [] (trades_of n n 0) ∙ omega (arith, length-trades_of n n 0)

pub reserve-size : (b : ExecutionBuffer) (n : ℕ) → (reserve b n).size ≡ b.size
unfolding reserve
reserve-size b n = ground arith

pub buffer_count :
    (b : ExecutionBuffer) (n : ℕ)
    → b.size ≡ 0
    → n < 2 ^ 64
    → (emit buffer_sink (reserve b n) (trades_of n n 0)).size ≡ n
buffer_count b n bare small =
    let start = reserve-size b n in
    let trades = length-trades_of n n 0 in
    emit-size (reserve b n) (trades_of n n 0) (omega (arith, start, bare, trades, small))
    ∙ omega (arith, start, bare, trades)

-- The book of the profilers.
pub profile_cap : IsCapacity (2 * book_orders)
profile_cap = record { log = 21; single_bit = refl; many = omega arith; word = omega arith }

pub book-IsBare :
    (hash : ℕ → ℕ) (keys values : ℕ → ℕ)
    → IsBare book_orders hash profile_cap (Clob.new book_orders hash keys values 8000 12000)
book-IsBare hash keys values =
    let (stored, low, high) =
      new-Represents book_orders hash profile_cap keys values 8000 12000 (omega arith) (omega arith)
        (omega arith) (omega arith) in
    record { stored = stored; range = (omega (arith, low), omega (arith, high)) }

pub profile_fits : profile_orders ≤ book_orders
profile_fits = omega arith

profile_word : profile_orders < 2 ^ 64
profile_word = omega arith

-- Each of the three profilers, on a new book, ends with the result 0.
pub profile_full_match_lem :
    (keys values : ℕ → ℕ)
    → (profile_full_match keys values ≡ some 0)
      × (profile_full_match_no_exec keys values ≡ some 0)
      × (profile_full_match_raw_exec keys values ≡ some 0)
unfolding profile_full_match profile_full_match_no_exec profile_full_match_raw_exec
profile_full_match_lem keys values = (
  run_profile_full_match_lem book_orders fast_hash profile_cap vector_sink (length {0}) []
      profile_orders profile_orders (profile_book keys values) (book-IsBare fast_hash keys values)
      profile_fits (vector_count profile_orders),
  run_profile_full_match_lem book_orders fast_hash profile_cap null_sink (λ _. 0) tt 0
      profile_orders (profile_book keys values) (book-IsBare fast_hash keys values) profile_fits
      refl,
  run_profile_full_match_lem book_orders fast_hash profile_cap buffer_sink (λ b. b.size)
      (reserve (record { cells = λ _. no_execution; capacity = 0; size = 0 }) profile_orders)
      profile_orders profile_orders (profile_book keys values) (book-IsBare fast_hash keys values)
      profile_fits
      (buffer_count (record { cells = λ _. no_execution; capacity = 0; size = 0 }) profile_orders
        refl profile_word),
)
