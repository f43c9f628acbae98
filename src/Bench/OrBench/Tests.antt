-- ===== src/Bench/OrBench/Tests.antt =====
-- Two rounds of three reads, of which the first is signaled.
use Prim.Native.Nat.{bit_and}
use rlibv.Base.{◌+◌, ◌*◌, ◌%◌, ◌≡◌, ◌≢◌, refl, true, some, none, [], ◌∷◌, u32_mod, u64_mod, arith}
use rlibv.Qps.Rc.{Rc, completed, encode_my_wr, poll_send_comp, wait_one_comp}
use rlibv.Qps.Progress.{forward}
use rlibv.Qps.Op.{Op, set_read, set_op, set_rdma_rbuf, execute, execute_batch}
use rlibv.Qps.Op
use rlibv.Bench.FastRandom.{next}
use rlibv.Bench.Reporter.{new_statics, increment}
use rlibv.Bench.Window.{or_loop, or_round}
use rlibv.Bench.Loop.{Client, Refused, Polls, wait_ok, posted_ok}
use rlibv.Bench.OrBench.{or_post, or_rounds}
use rlibv.Bench.OrBench.Balanced.{or_rounds-balanced}

abbrev verbs : Op.Verbs
verbs = record { rdma_read = 4; rdma_write = 0; cmp_and_swp = 5; fetch_and_add = 6; signaled = 2 }

abbrev accepted : Refused
accepted n = none

abbrev done : Polls
done n = completed (record { wr_id = 1; success = true }) ∷ []

abbrev rc : Rc
rc = record {
  local_mr = none;
  remote_mr = none;
  ready = true;
  progress = record { high_watermark = 0; low_watermark = 0 };
  out_signaled = 0;
}

abbrev start : Client Op
start = record {
  requests = set_read verbs (Op.new 1);
  qp = rc;
  rand = record { seed = 7 };
  statics = new_statics;
  posts = 0;
  waits = 0;
}

-- what the two rounds leave
abbrev end : Client Op
end = record {
  requests = record {
    wr_id = 6;
    next = none;
    opcode = 4;
    send_flags = 0;
    imm_data = 0;
    remote_addr = 18688;
    compare_add = 8;
    swap = 0;
    atomic_rkey = 0;
    sges = record { addr = 0; len = 0; lkey = 0 } ∷ [];
  };
  qp = record rc { progress = record { high_watermark = 6; low_watermark = 0 } };
  rand = record { seed = 149624101830947 };
  statics = record new_statics { counter = 6 };
  posts = 6;
  waits = 2;
}

runs : or_rounds verbs accepted done 2 4096 8 128 3 start ≡ some end
unfolding or_rounds or_round or_loop or_post wait_ok posted_ok next execute execute_batch set_read
    set_rdma_rbuf set_op encode_my_wr poll_send_comp wait_one_comp increment forward Op.new
runs = refl

flag : bit_and verbs.signaled verbs.signaled ≢ 0
flag = omega arith

or_rounds-balanced_example :
    (end.qp.out_signaled % u32_mod ≡ start.qp.out_signaled % u32_mod)
    × (end.statics.counter ≡ (start.statics.counter + 2 * 3) % u64_mod)
or_rounds-balanced_example =
    or_rounds-balanced verbs flag accepted done 2 4096 8 128 3 start end (omega arith) (omega arith)
      runs
