-- ===== src/MatchingBench/Streams.antt =====
-- The command streams of bench/bench_matching.cpp and bench/bench_matching_hot.cpp, submitted to a new
-- book: what the full-match stream trades, and what every stream leaves.
use Prim.Native.Nat.{bit_and}
use lowlat_matching_engine.Common.{
  ℕ, zero, suc, ◌+◌, ◌-◌, ◌%◌, ◌^◌, ◌≤◌, ◌<◌, ◌≡◌, ◌==◌, refl, sym, ap, ◌∙◌, inl, inr, arith, true,
  Bool-cases, Option-cases, some, List, [], ◌∷◌, ◌++◌,
}
use lowlat_matching_engine.Types.{OrderCommand, add_limit}
use lowlat_matching_engine.Sink.{Sink, ExecutionBuffer, buffer_sink}
use lowlat_matching_engine.Index.{IsId}
use lowlat_matching_engine.Clob
use lowlat_matching_engine.Clob.{submit_limit_order}
use lowlat_matching_engine.Workload.{
  generate, add_only_command, make_add_only_commands, make_full_match_commands,
  make_non_crossing_buys_commands,
}
use lowlat_matching_engine.Pipeline.{Engine, apply_all, apply_command, run_commands}
use lowlat_matching_engine.Pipeline.Commands.{AreCommands, IsSound, run_commands-IsSound}
use lowlat_matching_engine.Pipeline.Runs.{queue_capacity, initial_engine}
use lowlat_matching_engine.Pipeline.FullMatch.{
  generate-AreCommands, initial-IsBare, initial-IsSound, count,
}
use lowlat_matching_engine.Profile.FullMatch.{full_match_commands_lem, profile_cap}
use lowlat_matching_engine.MatchingBench.{
  submit_one, submit_commands, run_matching_add_only, run_matching_full_match,
  run_matching_hot_add_only,
}

-- No command cancels.
abbrev AreLimits : List OrderCommand → Type 0
AreLimits [] = Unit
AreLimits (command ∷ rest) = (command.type ≡ add_limit) × AreLimits rest

generate-AreLimits :
    (order : ℕ → OrderCommand)
    → ((i : ℕ) → (order i).type ≡ add_limit)
    → (n i : ℕ) → AreLimits (generate order n i)
unfolding generate
generate-AreLimits order h zero i = tt
generate-AreLimits order h (suc n) i = (h i, generate-AreLimits order h n (i + 1))

AreLimits-append : (xs ys : List OrderCommand) → AreLimits xs → AreLimits ys → AreLimits (xs ++ ys)
AreLimits-append [] ys w u = u
AreLimits-append (x ∷ xs) ys w u = (w.0, AreLimits-append xs ys w.1 u)

module _ (max_orders : ℕ) (hash : ℕ → ℕ) {S : Type 0} (sink : Sink S) where
  -- Submitting limit orders is what a pipeline's consumer does with them.
  submit_commands-run_commands :
      (e : Engine S) (commands : List OrderCommand)
      → AreLimits commands
      → submit_commands max_orders hash sink e commands
        ≡ run_commands max_orders hash sink e commands
  unfolding submit_commands apply_all submit_one apply_command
  submit_commands-run_commands e [] h = refl
  submit_commands-run_commands e (command ∷ rest) h =
      elim (Option-cases (submit_one max_orders hash sink e command)) [
        | inl lost ↦
            let lost' = sym (one e command h.0) ∙ lost in
            rw (submit_commands, run_commands, apply_all, lost, lost') refl
        | inr (e', on) ↦
            let on' = sym (one e command h.0) ∙ on in
            rw (submit_commands, run_commands, apply_all, on, on')
              (submit_commands-run_commands e' rest h.1)
      ]
    where
      one :
          (e : Engine S) (command : OrderCommand)
          → command.type ≡ add_limit
          → submit_one max_orders hash sink e command ≡ apply_command max_orders hash sink e command
      one e command is = rw (apply_command, is)

full_match-AreLimits : (n : ℕ) → AreLimits (make_full_match_commands n)
unfolding make_full_match_commands
full_match-AreLimits n =
    AreLimits-append _ _ (generate-AreLimits _ (λ i. refl) n 0)
      (generate-AreLimits _ (λ i. refl) n 0)

add_only_command-Limit :
    (i : ℕ)
    → ((add_only_command i).type ≡ add_limit)
      × (i < 2 ^ 64 - 1 → IsId (add_only_command i).order_id)
      × ((add_only_command i).qty < 2 ^ 64)
unfolding add_only_command
add_only_command-Limit i = elim (Bool-cases (bit_and i 1 == 0)) [
  | inl even ↦
      rw even (refl, (λ l. omega (arith, l)), (let e : i % 100 + 1 < 2 ^ 64 = omega arith in e))
  | inr odd ↦
      rw odd (refl, (λ l. omega (arith, l)), (let e : i % 100 + 1 < 2 ^ 64 = omega arith in e))
]

pub add_only-Limits :
    (n : ℕ)
    → n < 2 ^ 64
    → AreLimits (make_add_only_commands n) × AreCommands (make_add_only_commands n)
unfolding make_add_only_commands
add_only-Limits n few = (
  generate-AreLimits add_only_command (λ i. (add_only_command-Limit i).0) n 0,
  generate-AreCommands add_only_command n
      (λ i l.
        let (limit, id, word) = add_only_command-Limit i in (id (omega (arith, few, l)), word))
      n 0 (omega arith),
)

buys-Limits :
    (n : ℕ)
    → n < 2 ^ 64
    → AreLimits (make_non_crossing_buys_commands n)
      × AreCommands (make_non_crossing_buys_commands n)
unfolding make_non_crossing_buys_commands
buys-Limits n few = (
  generate-AreLimits _ (λ i. refl) n 0,
  generate-AreCommands _ n (λ i l. (omega (arith, few, l), omega arith)) n 0 (omega arith),
)

module _ (hash keys values : ℕ → ℕ) (n : ℕ) where
  -- With no more orders of each side than the book has room for, the full-match benchmark runs to
  -- its end; then the book is empty and there are as many executions as orders of each side.
  pub run_matching_full_match_lem :
      n ≤ queue_capacity
      → (e : Engine ExecutionBuffer) × (run_matching_full_match hash keys values n ≡ some e)
        × (Clob.empty queue_capacity hash e.book ≡ true)
        × (e.executions.size ≡ n)
  unfolding run_matching_full_match
  run_matching_full_match_lem few =
      let start = initial_engine hash keys values n in
      let (e, ran, reports, bare) =
        full_match_commands_lem queue_capacity hash profile_cap buffer_sink n start.book
          start.executions (initial-IsBare keys values n few hash) few in
      (
        e,
        submit_commands-run_commands queue_capacity hash buffer_sink start
              (make_full_match_commands n) (full_match-AreLimits n)
            ∙ ran,
        bare,
        ap (λ (b : ExecutionBuffer). b.size) reports ∙ count keys values n few hash,
      )

  -- The benchmarks that only add orders, a 64-bit number of them, run to their end, and leave a
  -- well-formed book in which every bid is below every ask.
  pub add_only_lem :
      n < 2 ^ 64
      → ((e : Engine ExecutionBuffer) × (run_matching_add_only hash keys values n ≡ some e)
          × IsSound queue_capacity hash profile_cap e.book)
        × ((e : Engine ExecutionBuffer) × (run_matching_hot_add_only hash keys values n ≡ some e)
            × IsSound queue_capacity hash profile_cap e.book)
  unfolding run_matching_add_only run_matching_hot_add_only initial_engine
  add_only_lem few = (
    complete (make_add_only_commands n) (add_only-Limits n few).0 (add_only-Limits n few).1,
    complete (make_non_crossing_buys_commands n) (buys-Limits n few).0 (buys-Limits n few).1,
  )
    where
      complete :
          (commands : List OrderCommand)
          → AreLimits commands
          → AreCommands commands
          → (e : Engine ExecutionBuffer) × (submit_commands queue_capacity hash buffer_sink
                (initial_engine hash keys values n)
                commands
              ≡ some e)
            × IsSound queue_capacity hash profile_cap e.book
      complete commands limits words =
          let start = initial_engine hash keys values n in
          let (e, ran, sound) =
            run_commands-IsSound queue_capacity hash profile_cap buffer_sink start commands
              (initial-IsSound keys values 0 (omega arith) hash) words in
          (
            e,
            submit_commands-run_commands queue_capacity hash buffer_sink start commands limits
                ∙ ran,
            sound,
          )
