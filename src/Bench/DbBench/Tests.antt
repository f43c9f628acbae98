-- ===== src/Bench/DbBench/Tests.antt =====
-- One round of two batches of ten reads.
use rlibv.Base.{◌+◌, ◌-◌, ◌%◌, ◌≤◌, ◌≡◌, refl, true, Option, some, none, List, [], ◌∷◌, u32_mod}
use rlibv.Proto.{RegAttr}
use rlibv.Qps.Rc.{completed, poll_send_comp, wait_one_comp}
use rlibv.Qps.Op.{
  set_read, set_flags, set_next, set_wrid, set_rdma_rbuf, set_payload, execute_batch,
}
use rlibv.Qps.Op
use rlibv.Bench.FastRandom.{next, with_seed0}
use rlibv.Bench.BenchOp.{BenchOp, new, set_type, init_lbuf, init_rbuf, refresh, refreshed, valid}
use rlibv.Bench.Reporter.{new_statics, increment}
use rlibv.Bench.Window.{db_factor, db_round, or_loop}
use rlibv.Bench.Loop.{Client, Refused, Polls, wait_ok, posted_ok}
use rlibv.Bench.DbBench.{flag_last, db_ops, refresh_all, db_post, db_rounds}
use rlibv.Bench.DbBench.Drift.{db_rounds-drift}

abbrev verbs : Op.Verbs
verbs = record { rdma_read = 4; rdma_write = 0; cmp_and_swp = 5; fetch_and_add = 6; signaled = 2 }

abbrev accepted : Refused
accepted n = none

abbrev done : Polls
done n = completed (record { wr_id = 9; success = true }) ∷ []

abbrev region : RegAttr
region = record { buf = 4096; sz = 1024; key = 8; lkey = 9 }

abbrev start : Client (List BenchOp)
start = record {
  requests = db_ops verbs 0 region region db_factor 0;
  qp = record {
    local_mr = none;
    remote_mr = none;
    ready = true;
    progress = record { high_watermark = 0; low_watermark = 0 };
    out_signaled = 0;
  };
  rand = with_seed0 7;
  statics = new_statics;
  posts = 0;
  waits = 0;
}

abbrev run : Option (Client (List BenchOp))
run = db_rounds verbs accepted done 1 128 20 start

abbrev left_by : Option (Client (List BenchOp)) → Client (List BenchOp)
left_by none = start
left_by (some c) = c

-- what the round leaves
abbrev end : Client (List BenchOp)
end = left_by run

runs : run ≡ some end
unfolding db_rounds db_round or_loop db_post wait_ok posted_ok next execute_batch set_read
    set_rdma_rbuf set_flags set_next set_wrid set_payload poll_send_comp wait_one_comp increment
    refresh refreshed valid refresh_all flag_last db_ops new set_type init_lbuf init_rbuf with_seed0
    Op.new Op.set_op
runs = refl

-- Two batches, the first of them signaled, leave the counter at 2^32 - 1, behind one wait.
counted_down : (end.qp.out_signaled ≡ u32_mod - 1) × (end.waits ≡ 1)
unfolding db_rounds db_round or_loop db_post wait_ok posted_ok next execute_batch set_read
    set_rdma_rbuf set_flags set_next set_wrid set_payload poll_send_comp wait_one_comp increment
    refresh refreshed valid refresh_all flag_last db_ops new set_type init_lbuf init_rbuf with_seed0
    Op.new Op.set_op
counted_down = (refl, refl)

db_rounds-drift_example :
    ((end.qp.out_signaled + end.waits) % u32_mod ≡ (start.qp.out_signaled + start.waits) % u32_mod)
    × (start.waits + 1 ≤ end.waits)
db_rounds-drift_example =
    db_rounds-drift verbs accepted done 0 1 128 20 region region start end refl runs
