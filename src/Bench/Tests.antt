-- ===== src/Bench/Tests.antt =====
-- A concrete request of the benchmarks.
use rlibv.Base.{◌≡◌, some, arith}
use rlibv.Qps.Op.{Verbs}
use rlibv.Bench.BenchOp.{BenchOp}
use rlibv.Bench.BenchOp.Bounds.{IsReady, refreshes, made, refreshes-made}

abbrev verbs : Verbs
verbs = record { rdma_read = 4; rdma_write = 0; cmp_and_swp = 5; fetch_and_add = 6; signaled = 2 }

-- a compare-and-swap, refreshed three times
refreshes-made_example :
    (b : BenchOp) × (refreshes verbs 3 (made verbs 2 4096 8 9 16 8192 11 10000) ≡ some b)
    × IsReady verbs (made verbs 2 4096 8 9 16 8192 11 10000) 11 8 9 b
refreshes-made_example =
    refreshes-made verbs 2 4096 8 9 16 8192 11 10000 (omega arith) (omega arith) (omega arith)
      (omega arith) (omega arith) (omega arith) (omega arith) (omega arith) 3
