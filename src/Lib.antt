-- ===== src/Lib.antt =====
-- lowlat-matching-engine: a limit order book over fixed-capacity memory, with the rings and the
-- workloads around it.
--
-- The book, src/fixed_clob.hpp, keeps its resting orders in a pool (src/order_pool.hpp), links the
-- orders of one price into a FIFO queue by indices into that pool, finds an order by its id in an
-- open-addressing table (src/order_index.hpp), tracks the best price of each side, and reports
-- trades to an execution sink (src/execution_sink.hpp). Commands (src/order_command.hpp) come from
-- the generators of src/workload.hpp, directly or through a single-producer single-consumer ring
-- (src/spsc_ring.hpp, or src/spsc_ring_cached.hpp).
--
-- Common: shared names; Boolean tests, arrays as functions with `update`, 64-bit arithmetic with
--   its wrap-around, and laws of bit operations.
-- Types: src/types.hpp, src/order.hpp, src/price_level.hpp, src/execution.hpp,
--   src/order_command.hpp.
-- Pool: src/order_pool.hpp, `OrderPool`; its laws in Pool/Laws.
-- Index: src/order_index.hpp, `FixedOrderIndex` and the two hash policies. Probing: positions of
--   a probe; Search: `find`; Probe, Write, Insert: `insert`; Erase: `erase` and the constructor.
-- Sink: src/execution_sink.hpp; the book takes any sink through the interface `Sink`. Buffer:
--   `ExecutionBuffer` against a vector.
-- Clob: src/fixed_clob.hpp, `FixedClob`, every operation; Levels: its state, the levels and the
--   best prices. Queues, Links: linked queues as lists of pool indices; Invariant: when a book is
--   well formed; Effects, Place: what the parts of an operation change; Best, Refresh: the best
--   prices; Add, Middle, Remove, Removal, Reduce and the modules below them: the invariant after
--   each change; View: the abstract book, FIFO queues of ids and quantities, and `Represents`,
--   which ties a well-formed book to it; Requests, Cancel: `add_order` and `cancel_order`;
--   Consume, MatchSteps, LevelSteps, MatchLevel, Trades, Crossing, MatchOrder, Submit: matching
--   and submission; Apart, Session: what every submission keeps; Create: the constructor; Queries:
--   the const member functions; Sums, Waiting, Count: how many orders rest; Conserve: how much.
-- Ring: src/spsc_ring.hpp, `SpscRing`, each call as one step. Slice: the stored elements as a
--   list; Calls, Batches, Outcomes: each call against a bounded queue. Atomic: `push` and `pop` as
--   the single loads and stores of two threads, its invariant in Atomic/Holds and
--   Atomic/Invariant, what follows in Atomic/Order.
-- CachedRing: src/spsc_ring_cached.hpp, `SpscRingCached`, each call as one step. Refine,
--   Batches: it does what `SpscRing` does. Atomic: push and pop again as the single loads and
--   stores of two threads; Atomic/Order: their steps are steps of `SpscRing`.
-- Pipeline: the two threads of the benchmarks of bench/bench_pipeline.cpp as a step relation, a
--   step being one round of a loop: a call on the ring with what follows it. Sequences,
--   Interleaving: any order of steps; Starts, Progress: steps that go on to the end; Commands: the
--   commands alone; Benchmarks: what the consumers do; Runs: each benchmark function; FullMatch:
--   those on the full-match stream.
-- LatencyStats: src/latency_stats.hpp, samples, percentiles (Percentile) and what is printed
--   (Printed); the double arithmetic is a parameter.
-- Workload: src/workload.hpp. OneLevel: a book with sells at one price, and orders for it
--   (OneLevel/Orders).
-- SimdScan: src/simd_scan.hpp; the intrinsics are a parameter. Blocks: the masks; Agrees: the
--   AVX2 scan against the scalar one; Inputs: bench/bench_simd_scan.cpp.
-- IndexBench: bench/bench_order_index.cpp.
-- MatchingBench: bench/bench_matching.cpp and bench/bench_matching_hot.cpp. Streams: those that
--   submit a command stream; Ladder, NextLevel, Sweep: those that sweep the ask levels; Hot: full
--   matches on every sink.
-- ClobBench: bench/bench_fixed_clob.cpp. Steps: what rests after one call; Emptied: orders added
--   and cancelled; Counted: orders added.
-- LatencyProfile: tools/profile_pipeline_latency.cpp; what the clock reads is a parameter.
-- Profile: tools/profile_full_match.cpp and its variants. Loops: the two loops; FullMatch: their
--   end.
-- Tests: runs at concrete inputs, and the theorems at inputs that meet their conditions.
--
-- Numbers are native naturals. A sum, difference or product of machine words that can wrap is
-- written with its wrap-around (`add64`, `sub64`, `mul64`). A C++ array is a function from its
-- indices; a reference to an order is its pool index, and one to a price level its side and price,
-- so aliases stay aliases. Template parameters (`MaxOrders`, `Capacity`, the hash) are parameters.
--
-- Assertions are preconditions: the definitions say nothing of a call on which one fails. The index
-- asserts that an id is not 0 (`Index.IsId`); a theorem on a call with a new id takes this as a
-- hypothesis, and an id in the index of a well-formed book is never 0, so that erasing it is within
-- the assertion. An array that is too small is excluded likewise: the invariant of the book keeps
-- `range_size`, the number of levels of a side, from wrapping; Sink/Buffer shows that a buffer with
-- memory reserved for what it takes in does not outgrow it, and the full matches count what they
-- write.
--
-- Loops. A counted loop recurs on the rounds left. The probes of the index make `Capacity` steps.
-- The two matching loops take fuel, `MaxOrders + 1` rounds each: every round but the last removes
-- a resting order, and there are at most `MaxOrders`. The AVX2 loops take one round more than there
-- are words: each moves on by at least eight.
--
-- Not modelled: output, thread pinning and timing; the files that the component list of the
-- manifest leaves out.
pub mod Common
pub mod Types
pub mod Pool
pub mod Index
pub mod Sink
pub mod Clob
pub mod Ring
pub mod CachedRing
pub mod Pipeline
pub mod LatencyStats
pub mod Workload
pub mod SimdScan
pub mod Profile
pub mod IndexBench
pub mod LatencyProfile
pub mod MatchingBench
pub mod ClobBench
mod Tests
