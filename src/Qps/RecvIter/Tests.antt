-- ===== src/Qps/RecvIter/Tests.antt =====
-- Two messages received over a ring of four: core/qps/recv_iter.hh.
use rlibv.Base.{ℕ, ◌≡◌, refl, some, none, [], ◌∷◌, List, arith, false}
use rlibv.Qps.WrChain.{ring_from}
use rlibv.Qps.RecvEntries.{RecvEntries}
use rlibv.Qps.RecvEntries.Ring.{IsRing, ring_from-IsRing}
use rlibv.Qps.RecvIter.{RecvWc, RecvIter, new, collect, clear, has_msgs}
use rlibv.Qps.RecvIter.Drain.{collect-clear}

abbrev ring : ℕ → RecvEntries
ring header = record { nexts = ring_from 0 4; wr_ids = []; sges = []; header = header }

abbrev received : List RecvWc
received = record { wr_id = 4096; imm_data = 7 } ∷ record { wr_id = 8192; imm_data = 9 } ∷ []

collect-clear_example :
    (collect 3 (new [] (some received)) ≡ some ((7, 4096) ∷ (9, 8192) ∷ []))
    × (it : RecvIter) × (clear 4 none (new [] (some received)) (ring 3)
        ≡ some (record { posted = some (3 ∷ 0 ∷ []); ring = ring 1; iter = it }))
    × IsRing 4 (ring 1)
    × (has_msgs it ≡ false)
collect-clear_example =
    collect-clear 4 (ring 3) [] received (ring_from-IsRing 4 (ring 3) refl (omega arith))
      (omega arith) (omega arith) (omega arith)
