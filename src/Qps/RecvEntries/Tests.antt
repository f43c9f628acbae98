-- ===== src/Qps/RecvEntries/Tests.antt =====
-- A ring of four receive requests whose header is the last one: core/qps/recv_helper.hh.
use rlibv.Base.{ℕ, suc, ◌+◌, ◌≡◌, refl, some, none, [], ◌∷◌, arith}
use rlibv.Result.{make_ok}
use rlibv.Qps.WrChain.{ring_from}
use rlibv.Qps.RecvEntries.{RecvEntries, post_recvs, Allocator, create, alloc_entries}
use rlibv.Qps.RecvEntries.Ring.{IsRing, ring_from-IsRing, post_recvs-IsRing}

abbrev ring : ℕ → RecvEntries
ring header = record { nexts = ring_from 0 4; wr_ids = []; sges = []; header = header }

ring-IsRing : IsRing 4 (ring 3)
ring-IsRing = ring_from-IsRing 4 (ring 3) refl (omega arith)

-- an allocator that gives out the addresses 100, 101, ...
abbrev numbered : Allocator ℕ
numbered s sz = (some (100 + s, 7), suc s)

abbrev made : RecvEntries
made = record {
  nexts = some 1 ∷ some 0 ∷ [];
  wr_ids = 100 ∷ 101 ∷ [];
  sges = record { addr = 100; len = 64; lkey = 7 } ∷ record { addr = 101; len = 64; lkey = 7 } ∷ [];
  header = 0;
}

made_lem : create numbered 2 0 64 ≡ some (made, 2)
unfolding create alloc_entries
made_lem = refl

post_recvs-IsRing_example :
    (post_recvs 4 none (ring 3) 2
      ≡ some (record { result = make_ok 0; seen = 3 ∷ 0 ∷ []; ring = ring 1 }))
    × IsRing 4 (ring 1)
post_recvs-IsRing_example =
    post_recvs-IsRing 4 (ring 3) 2 ring-IsRing (omega arith) (omega arith) (omega arith)
