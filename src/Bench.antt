-- ===== src/Bench.antt =====
-- benchs: what the benchmark clients share (statics.hh, reporter.hh, bench_op.hh), and their loops.
pub mod FastRandom
pub mod BenchOp
pub mod Reporter
pub mod Window
pub mod Setup
pub mod Loop
pub mod OrBench
pub mod DbBench
pub mod BenchClient
pub mod FlyBench
pub mod DcBench
pub mod BenchServer
mod Tests
