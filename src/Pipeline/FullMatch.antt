-- ===== src/Pipeline/FullMatch.antt =====
-- The full-match benchmarks of bench/bench_pipeline.cpp: each run can go on to its end, where all has
-- traded.
use lowlat_matching_engine.Common.{
  ℕ, zero, suc, ◌+◌, ◌^◌, ◌≤◌, ◌<◌, ◌≡◌, refl, sym, ap, ◌∙◌, arith, true, List, [], ◌∷◌, ◌++◌,
  length, length-append,
}
use lowlat_matching_engine.Types.{OrderCommand}
use lowlat_matching_engine.Sink.{ExecutionBuffer, buffer_sink, emit}
use lowlat_matching_engine.Ring.Slice.{IsRingCapacity}
use lowlat_matching_engine.Index.{IsId}
use lowlat_matching_engine.Clob
use lowlat_matching_engine.Clob.Create.{empty_view}
use lowlat_matching_engine.Workload.{generate, make_full_match_commands}
use lowlat_matching_engine.Pipeline.{Engine, Producer, Consumer, apply_command, Steps}
use lowlat_matching_engine.Pipeline.Commands.{AreCommands, IsSound}
use lowlat_matching_engine.Pipeline.Sequences.{some_inj}
use lowlat_matching_engine.Pipeline.Starts.{Pushes, Pops}
use lowlat_matching_engine.Pipeline.Benchmarks.{itself, raw_exec_lem}
use lowlat_matching_engine.Pipeline.Runs.{
  queue_capacity, no_executions, initial_engine, BookRun, RawExec,
}
use lowlat_matching_engine.Profile.{ask, bid}
use lowlat_matching_engine.Profile.Loops.{trades_of}
use lowlat_matching_engine.Profile.FullMatch.{
  IsBare, full_match_commands_lem, buffer_count, profile_cap, book-IsBare,
}

length-generate : (order : ℕ → OrderCommand) (n i : ℕ) → length (generate order n i) ≡ n
unfolding generate
length-generate order zero i = refl
length-generate order (suc n) i = omega (arith, length-generate order n (i + 1))

pub generate-AreCommands :
    (order : ℕ → OrderCommand)
    → (bound : ℕ) → ((i : ℕ) → i < bound → IsId (order i).order_id × ((order i).qty < 2 ^ 64))
    → (n i : ℕ) → i + n ≤ bound
    → AreCommands (generate order n i)
unfolding generate
generate-AreCommands order bound h zero i few = tt
generate-AreCommands order bound h (suc n) i few =
    let (id, word) = h i (omega (arith, few)) in
    (id, word, generate-AreCommands order bound h n (i + 1) (omega (arith, few)))

AreCommands-append :
    (xs ys : List OrderCommand) → AreCommands xs → AreCommands ys → AreCommands (xs ++ ys)
AreCommands-append [] ys w u = u
AreCommands-append (x ∷ xs) ys w u = (w.0, w.1, AreCommands-append xs ys w.2 u)

full_match-AreCommands : (n : ℕ) → n ≤ queue_capacity → AreCommands (make_full_match_commands n)
unfolding make_full_match_commands
full_match-AreCommands n few =
    AreCommands-append _ _
      (generate-AreCommands ask n (λ i l. (omega (arith, few, l), omega arith)) n 0 (omega arith))
      (generate-AreCommands (bid n) n (λ i l. (omega (arith, few, l), omega arith)) n 0
        (omega arith))

pub length-full_match : (n : ℕ) → length (make_full_match_commands n) ≡ n + n
unfolding make_full_match_commands
length-full_match n =
    length-append (generate ask n 0) (generate (bid n) n 0)
    ∙ omega (arith, length-generate ask n 0, length-generate (bid n) n 0)

ring_cap : IsRingCapacity queue_capacity
ring_cap = record { log = 20; single_bit = refl; small = omega arith; many = omega arith }

capacity_word : queue_capacity < 2 ^ 32
capacity_word = omega arith

module _ (keys values : ℕ → ℕ) (n : ℕ) (few : n ≤ queue_capacity) where
  pub initial-IsBare :
      (hash : ℕ → ℕ)
      → IsBare queue_capacity hash profile_cap (initial_engine hash keys values n).book
  unfolding initial_engine
  initial-IsBare hash = book-IsBare hash keys values

  pub initial-IsSound :
      (hash : ℕ → ℕ)
      → IsSound queue_capacity hash profile_cap (initial_engine hash keys values n).book
  initial-IsSound hash = record {
    view = empty_view;
    stored = (initial-IsBare hash).stored;
    apart = λ bid ask bl bh al ah bne ane. absurd (bne refl);
  }

  pub count :
      (hash : ℕ → ℕ)
      → (emit buffer_sink (initial_engine hash keys values n).executions (trades_of n n 0)).size ≡ n
  unfolding initial_engine no_executions
  count hash = buffer_count no_executions n refl (omega (arith, few))

  module _ (cells batch : ℕ → OrderCommand) (hash : ℕ → ℕ) (producer : Producer)
      (consumer : Consumer) where
    -- From every state that the two threads of a full-match benchmark reach, where the batches are
    -- not empty and there are no more orders of each side than the book has room for, they can go
    -- on until all commands are processed; then as many executions are in the buffer as there are
    -- orders of each side, and the book is empty.
    pub full_match_run_lem :
        {p : BookRun}
        → Pushes producer
        → Pops consumer
        → RawExec keys values n cells batch hash producer consumer (make_full_match_commands n) p
        → (q : BookRun) × Steps itself
            (apply_command queue_capacity hash buffer_sink)
            producer
            consumer
            queue_capacity
            (length (make_full_match_commands n))
            p
            q
          × (q.processed ≡ length (make_full_match_commands n))
          × (q.engine.executions.size ≡ n)
          × (Clob.empty queue_capacity hash q.engine.book ≡ true)
    full_match_run_lem pushes pops steps =
        let (q, more, done, ran, sound) =
          raw_exec_lem producer consumer queue_capacity ring_cap queue_capacity hash profile_cap
            buffer_sink (omega (arith, length-full_match n, few)) (full_match-AreCommands n few)
            (initial-IsSound hash) pushes pops steps in
        let (e, ran', reports, bare) =
          full_match_commands_lem queue_capacity hash profile_cap buffer_sink n
            (initial_engine hash keys values n).book (initial_engine hash keys values n).executions
            (initial-IsBare hash) few in
        let same : e ≡ q.engine = some_inj (sym ran' ∙ ran) in
        (
          q,
          more,
          done,
          ap (λ (x : Engine ExecutionBuffer). x.executions.size) (sym same)
              ∙ ap (λ (x : ExecutionBuffer). x.size) reports
              ∙ count hash,
          ap (λ (x : Engine ExecutionBuffer). Clob.empty queue_capacity hash x.book) (sym same)
              ∙ bare,
        )
