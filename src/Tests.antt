-- ===== src/Tests.antt =====
-- Runs of the definitions on concrete inputs, and the theorems at inputs that meet their conditions.
mod PoolTests
mod IndexTests
mod ClobTests
mod RingTests
mod PipelineTests
mod LatencyTests
mod AtomicTests
mod SimdScanTests
mod ProfileTests
mod IndexBenchTests
mod LatencyProfileTests
mod MatchingBenchTests
mod ClobBenchTests
mod SinkTests
mod CachedAtomicTests
