-- ===== src/Profile.antt =====
-- The profilers tools/profile_full_match.cpp, tools/profile_full_match_no_exec.cpp and
-- tools/profile_full_match_raw_exec.cpp: sells at one price, then buys that match them one by one. The
-- clock and the output are left out.
pub mod Loops
pub mod FullMatch
use lowlat_matching_engine.Common.{
  ℕ, zero, suc, ◌+◌, ◌==◌, if◌then◌else◌, not, true, Option, none, some, List, [], length, add64,
}
use lowlat_matching_engine.Types.{buy, sell, Execution, OrderCommand}
use lowlat_matching_engine.Sink.{
  Sink, vector_sink, null_sink, ExecutionBuffer, buffer_sink, reserve, no_execution,
}
use lowlat_matching_engine.Index.{fast_hash}
use lowlat_matching_engine.Clob
use lowlat_matching_engine.Clob.{Clob, Outcome, submit_limit_order}
use lowlat_matching_engine.Workload.{limit_order}

-- The order that round `i` of the first loop submits.
abbrev pub ask : ℕ → OrderCommand
ask i = limit_order (add64 i 1) sell 10000 i

-- That of round `i` of the second.
abbrev pub bid : ℕ → ℕ → OrderCommand
bid n i = limit_order (add64 (add64 n i) 1) buy 10000 i

module _ (max_orders : ℕ) (hash : ℕ → ℕ) where
  -- A loop that submits an order each round and stops at the first that is refused, with the
  -- rounds that are left.
  unfoldable pub submit_each :
      {S : Type 0} → Sink S → (ℕ → OrderCommand) → ℕ → ℕ → Clob → S → Option (Outcome S)
  submit_each sink order zero i book executions =
      some (record { accepted = true; book = book; executions = executions })
  submit_each sink order (suc rounds) i book executions =
      elim (submit_limit_order max_orders hash sink book (order i).order_id (order i).side
        (order i).price (order i).qty executions) [
          | none ↦ none
          | some o ↦
              let rest = submit_each sink order rounds (i + 1) o.book o.executions in
              if o.accepted then rest else some o
        ]

  -- `main`, which returns 0 where all its checks pass.
  unfoldable pub run_profile_full_match :
      {S : Type 0} → Sink S → (S → ℕ) → S → (expected n : ℕ) → Clob → Option ℕ
  run_profile_full_match sink size executions expected n book =
      elim (submit_each null_sink ask n 0 book tt) [
        | none ↦ none
        | some asks ↦
            if not asks.accepted
            then some 1
            else elim (submit_each sink (bid n) n 0 asks.book executions) [
              | none ↦ none
              | some buys ↦
                  if not buys.accepted
                  then some 1
                  else if not (size buys.executions == expected)
                  then some 1
                  else if not (Clob.empty max_orders hash buys.book)
                  then some 1
                  else some 0
            ]
      ]

abbrev pub profile_orders : ℕ
profile_orders = 1000000

abbrev pub book_orders : ℕ
book_orders = 1048576

-- `keys` and `values` are what the memory of the table contains at the start.
module _ (keys values : ℕ → ℕ) where
  abbrev pub profile_book : Clob
  profile_book = Clob.new book_orders fast_hash keys values 8000 12000

  unfoldable pub profile_full_match : Option ℕ
  profile_full_match =
      run_profile_full_match book_orders fast_hash vector_sink (length {0}) [] profile_orders
        profile_orders profile_book

  unfoldable pub profile_full_match_no_exec : Option ℕ
  profile_full_match_no_exec =
      run_profile_full_match book_orders fast_hash null_sink (λ _. 0) tt 0 profile_orders
        profile_book

  unfoldable pub profile_full_match_raw_exec : Option ℕ
  profile_full_match_raw_exec =
      run_profile_full_match book_orders fast_hash buffer_sink (λ b. b.size)
        (reserve (record { cells = λ _. no_execution; capacity = 0; size = 0 }) profile_orders)
        profile_orders profile_orders profile_book
