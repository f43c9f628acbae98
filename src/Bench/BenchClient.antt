-- ===== src/Bench/BenchClient.antt =====
-- benchs/bench_client.cc: one request at a time, each signaled and waited for.
--
-- The client has no generator of its own; `rand` stays as it is.
use rlibv.Base.{ℕ, zero, suc, ◌%◌, Option, none, some, List, if◌then◌else◌, ◌>>=◌, u32_mod}
use rlibv.Marshal.{ByteBuffer}
use rlibv.Result.{Result}
use rlibv.Channel.{Event}
use rlibv.Config.{Access, QpConfig}
use rlibv.Srpc.Client.{SRpc}
use rlibv.Verbs.{Verbs}
use rlibv.ConnectManager.{Called}
use rlibv.Qps.Op.{execute}
use rlibv.Qps.Op
use rlibv.Bench.FastRandom.{with_seed0}
use rlibv.Bench.BenchOp.{BenchOp, new, init_lbuf, init_rbuf, refresh, valid}
use rlibv.Bench.Reporter.{new_statics}
use rlibv.Bench.Setup.{Flags, Sending, Worker, connect_worker, disconnect_worker}
use rlibv.Bench.Loop.{Client, Refused, Polls, wait_ok, posted_ok, counted}

-- The NICs of both sides, and the region, are chosen by the number of the worker.
abbrev pub client_flags : ByteBuffer → ℕ → Flags
client_flags client_name worker_id = record {
  client_name = client_name;
  nic_idx = worker_id % 2;
  reg_nic_name = worker_id % 2;
  reg_mem_name = worker_id % 2;
  worker_id = worker_id;
}

module _ (o : Op.Verbs) (refused : Refused) (polls : Polls) where
  -- one round of the loop
  unfoldable pub client_round : Client BenchOp → Option (Client BenchOp)
  client_round c = refresh o c.requests >>= λ b.
      let e = execute o (refused c.posts) b.op c.qp o.signaled 0 in
      posted_ok c (record b { op = e.request }) e c.rand >>= λ c₁.
      wait_ok polls c₁ >>= λ c₂. some (counted 1 c₂)

  unfoldable pub client_rounds : ℕ → Client BenchOp → Option (Client BenchOp)
  client_rounds zero c = some c
  client_rounds (suc n) c = client_round c >>= client_rounds n

  -- the request of type `t` with `payload` bytes, behind its assertion
  unfoldable pub client_start : {v : Verbs} → ℕ → ℕ → Worker v → Option (Client BenchOp)
  client_start t payload w =
      let b =
        init_rbuf (init_lbuf (new o 1 t) w.local_attr.buf (payload % u32_mod) w.local_attr.key 1000)
          w.remote_attr.buf w.remote_attr.key 10000 in
      if valid b
      then some (record {
        requests = b;
        qp = w.qp.state;
        rand = with_seed0 0;
        statics = new_statics;
        posts = 0;
        waits = 0;
      })
      else none

  -- the whole worker, which is stopped behind `n` rounds
  unfoldable pub worker_fn :
      (v : Verbs)
      → Access
      → (ℕ → ℕ)
      → QpConfig
      → ByteBuffer
      → ℕ
      → Sending
      → ℕ
      → ℕ
      → ℕ
      → SRpc
      → List Event
      → Option (Client BenchOp × Called (Result ByteBuffer))
  worker_fn v a af config client_name worker_id fails t payload n rpc evs =
      connect_worker v a af config (client_flags client_name worker_id) fails rpc evs >>= λ w.
      client_start t payload w >>= client_rounds n >>= λ c.
      disconnect_worker v a af config (client_flags client_name worker_id) fails w >>= λ called.
      some (c, called)
