-- ===== src/Bench/FlyBench/Tests.antt =====
-- Two rounds with a window of six reads, of which each completes one per wait.
use rlibv.Base.{◌≡◌, refl, true, Option, some, none, [], ◌∷◌, arith}
use rlibv.Qps.Rc.{Rc, completed, encode_my_wr, poll_send_comp, wait_one_comp}
use rlibv.Qps.Progress.{forward}
use rlibv.Qps.Op.{Op, set_read, set_rdma_rbuf, execute, execute_batch}
use rlibv.Qps.Op
use rlibv.Bench.FastRandom.{next}
use rlibv.Bench.Reporter.{new_statics, increment}
use rlibv.Bench.Loop.{Client, Refused, Polls, posted_ok}
use rlibv.Bench.OrBench.{or_post}
use rlibv.Bench.FlyBench.{Fly, fly_posts, fly_try, fly_tries, fly_round, fly_rounds}
use rlibv.Bench.FlyBench.InFlight.{InWindow, fly_rounds-InWindow}

abbrev verbs : Op.Verbs
verbs = record { rdma_read = 4; rdma_write = 0; cmp_and_swp = 5; fetch_and_add = 6; signaled = 2 }

abbrev accepted : Refused
accepted n = none

abbrev done : Polls
done n = completed (record { wr_id = 1; success = true }) ∷ []

abbrev rc : Rc
rc = record {
  local_mr = none;
  remote_mr = none;
  ready = true;
  progress = record { high_watermark = 0; low_watermark = 0 };
  out_signaled = 0;
}

abbrev start : Client Op
start = record {
  requests = set_read verbs (Op.new 1);
  qp = rc;
  rand = record { seed = 7 };
  statics = new_statics;
  posts = 0;
  waits = 0;
}

abbrev begin : Fly
begin = record { client = start; recv_cnt = 0; flying_cnt = 0 }

abbrev run : Option Fly
run = fly_rounds verbs accepted done 2 4096 8 6 begin

abbrev left_by : Option Fly → Fly
left_by none = begin
left_by (some s) = s

-- what the two rounds leave
abbrev end : Fly
end = left_by run

runs : run ≡ some end
unfolding fly_rounds fly_round fly_tries fly_try fly_posts or_post posted_ok next execute
    execute_batch set_read set_rdma_rbuf encode_my_wr poll_send_comp wait_one_comp increment forward
    Op.new Op.set_op
runs = refl

-- One request is in flight behind the second round, and one more wait drains it.
one_left : (end.flying_cnt ≡ 1) × (end.client.statics.counter ≡ 11) × (end.recv_cnt ≡ 10)
unfolding fly_rounds fly_round fly_tries fly_try fly_posts or_post posted_ok next execute
    execute_batch set_read set_rdma_rbuf encode_my_wr poll_send_comp wait_one_comp increment forward
    Op.new Op.set_op
one_left = (refl, refl, refl)

begin-InWindow : InWindow verbs accepted done 6 begin
begin-InWindow = record {
  made_small = omega arith;
  recv_small = omega arith;
  flying = refl;
  within = omega arith;
}

fly_rounds-InWindow_example : InWindow verbs accepted done 6 end
fly_rounds-InWindow_example =
    fly_rounds-InWindow verbs accepted done 2 4096 8 6 begin end (omega arith) (omega arith)
      begin-InWindow runs
