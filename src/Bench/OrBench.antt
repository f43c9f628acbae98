-- ===== src/Bench/OrBench.antt =====
-- benchs/or_bench/client.cc: reads of random numbers of the remote region, of which one among many is signaled.
pub mod Balanced
mod Tests
use rlibv.Base.{
  ℕ, zero, suc, ◌+◌, ◌*◌, ◌%◌, Bool, Option, none, some, List, if◌then◌else◌, ◌>>=◌, u32_mod,
}
use rlibv.Marshal.{ByteBuffer}
use rlibv.Result.{Result}
use rlibv.Channel.{Event}
use rlibv.Config.{Access, QpConfig, max_send_sz}
use rlibv.Srpc.Client.{SRpc}
use rlibv.Verbs.{Verbs}
use rlibv.ConnectManager.{Called}
use rlibv.Qps.Op.{Op, set_imm, set_read, set_payload, set_rdma_rbuf, execute}
use rlibv.Qps.Op
use rlibv.Bench.FastRandom.{with_seed0, next}
use rlibv.Bench.BenchOp.{element}
use rlibv.Bench.Reporter.{new_statics}
use rlibv.Bench.Window.{or_round}
use rlibv.Bench.Setup.{Flags, Sending, Worker, connect_worker, disconnect_worker}
use rlibv.Bench.Loop.{Client, Refused, Polls, wait_ok, posted_ok, counted}

module _ (o : Op.Verbs) (refused : Refused) (polls : Polls) where
  -- the inner loop up to its wait
  unfoldable pub or_post : ℕ → ℕ → ℕ → Bool → Client Op → Option (Client Op)
  or_post remote_buf rkey i signaled c =
      let (x, rand) = next c.rand in
      let op = set_rdma_rbuf c.requests (element remote_buf (x % 10000)) rkey in
      let e = execute o (refused c.posts) op c.qp (if signaled then o.signaled else 0) 0 in
      posted_ok c e.request e rand

  -- `n` rounds of the outer loop
  unfoldable pub or_rounds : ℕ → ℕ → ℕ → ℕ → ℕ → Client Op → Option (Client Op)
  or_rounds zero remote_buf rkey max or_factor c = some c
  or_rounds (suc n) remote_buf rkey max or_factor c =
      or_round (or_post remote_buf rkey) (wait_ok polls) max or_factor c >>= λ c'.
      or_rounds n remote_buf rkey max or_factor (counted or_factor c')

  -- The request and the generator before the loop. The local key is the one for remote access.
  unfoldable pub or_start : {v : Verbs} → Flags → Worker v → Client Op
  or_start f w = record {
    requests =
        (set_payload (set_imm (set_read o (Op.new 1)) 0) w.local_attr.buf 8 w.local_attr.key 0).1;
    qp = w.qp.state;
    rand = with_seed0 ((0xdeadbeaf + f.worker_id) % u32_mod);
    statics = new_statics;
    posts = 0;
    waits = 0;
  }

  -- the whole worker, which is stopped behind `n` rounds
  unfoldable pub worker_fn :
      (v : Verbs)
      → Access
      → (ℕ → ℕ)
      → QpConfig
      → Flags
      → Sending
      → ℕ
      → ℕ
      → SRpc
      → List Event
      → Option (Client Op × Called (Result ByteBuffer))
  worker_fn v a af config f fails n or_factor rpc evs =
      connect_worker v a af config f fails rpc evs >>= λ w.
      or_rounds n w.remote_attr.buf w.remote_attr.key (max_send_sz w.qp.my_config) or_factor
        (or_start f w)
      >>= λ c. disconnect_worker v a af config f fails w >>= λ called. some (c, called)
