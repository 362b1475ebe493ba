-- ===== src/MatchingBench/Hot.antt =====
-- The full-match benchmark of bench/bench_matching_hot.cpp, on every sink.
use lowlat_matching_engine.Common.{
  ℕ, zero, suc, ◌+◌, ◌≤◌, ◌≡◌, ap, ◌∙◌, inl, inr, arith, true, Bool-cases, Option-cases, some,
}
use lowlat_matching_engine.Types.{OrderCommand}
use lowlat_matching_engine.Sink.{Sink, null_sink, emit}
use lowlat_matching_engine.Clob
use lowlat_matching_engine.Clob.{Clob, Outcome, submit_limit_order}
use lowlat_matching_engine.Pipeline.{Engine}
use lowlat_matching_engine.Pipeline.Sequences.{some_inj}
use lowlat_matching_engine.Pipeline.Runs.{queue_capacity}
use lowlat_matching_engine.Profile.{ask, bid, submit_each}
use lowlat_matching_engine.Profile.Loops.{trades_of}
use lowlat_matching_engine.Profile.FullMatch.{both_loops, profile_cap, book-IsBare, Waits-empty}
use lowlat_matching_engine.MatchingBench.{submit_one, submit_loop, run_matching_hot_full_match}

-- A loop that stops at the first order refused, where none is, is a loop that does not stop.
submit_each-submit_loop :
    (max_orders : ℕ) (hash : ℕ → ℕ) {S : Type 0} (sink : Sink S) (order : ℕ → OrderCommand)
    (rounds i : ℕ) (c : Clob) (executions : S) (o : Outcome S)
    → submit_each max_orders hash sink order rounds i c executions ≡ some o
    → o.accepted ≡ true
    → submit_loop max_orders hash sink order rounds i (record { book = c; executions = executions })
      ≡ some (record { book = o.book; executions = o.executions })
unfolding submit_each submit_loop submit_one
submit_each-submit_loop max_orders hash {S} sink order zero i c executions o ran yes_it =
    ap (λ (x : Outcome S). some (record { book = x.book; executions = x.executions }))
      (some_inj ran)
submit_each-submit_loop max_orders hash {S} sink order (suc rounds) i c executions o ran yes_it =
    elim (Option-cases (
      submit_limit_order max_orders hash sink c (order i).order_id (order i).side (order i).price
        (order i).qty executions)) [
          | inl lost ↦ absurd (ground (arith, lost, ran))
          | inr (o₁, on) ↦ elim (Bool-cases o₁.accepted) [
            | inl fine ↦
                let rest =
                  submit_each-submit_loop max_orders hash sink order rounds (i + 1) o₁.book
                    o₁.executions o (ground (arith, on, fine, ran)) yes_it in
                rw (submit_loop, submit_one, on) rest
            | inr bad ↦
                let same : some o₁ ≡ some o = ground (arith, on, bad, ran) in
                let e : o₁.accepted ≡ true =
                  ap (λ (x : Outcome S). x.accepted) (some_inj same) ∙ yes_it in
                absurd (ground (arith, bad, e))
          ]
        ]

-- With no more orders of each side than the book has room for, the benchmark runs to its end; then the
-- book is empty, and the sink has taken in one trade of each buy with the sell of its round.
pub run_matching_hot_full_match_lem :
    (hash keys values : ℕ → ℕ) {S : Type 0} (sink : Sink S) (executions : S) (n : ℕ)
    → n ≤ queue_capacity
    → (e : Engine S) × (run_matching_hot_full_match hash keys values sink executions n ≡ some e)
      × (Clob.empty queue_capacity hash e.book ≡ true)
      × (e.executions ≡ emit sink executions (trades_of n n 0))
unfolding run_matching_hot_full_match
run_matching_hot_full_match_lem hash keys values sink executions n few =
    let (asks, ran, yes_it, same, bids, ran', took) =
      both_loops queue_capacity hash profile_cap sink n
        (Clob.new queue_capacity hash keys values 8000 12000) null_sink tt executions
        (book-IsBare hash keys values) few in
    let first =
      submit_each-submit_loop queue_capacity hash null_sink ask n 0
        (Clob.new queue_capacity hash keys values 8000 12000) tt asks ran yes_it in
    let second =
      submit_each-submit_loop queue_capacity hash sink (bid n) n 0 asks.book executions bids ran'
        took.accepted in
    (
      record { book = bids.book; executions = bids.executions },
      rw (run_matching_hot_full_match, first) second,
      Waits-empty queue_capacity hash profile_cap bids.book took.waits,
      took.reports,
    )
