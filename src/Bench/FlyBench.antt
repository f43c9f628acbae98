-- ===== src/Bench/FlyBench.antt =====
-- benchs/fly_bench/client.cc: a window of signaled requests, filled up again by as many as have completed.
--
-- `int64 - u64` is unsigned in C++, so the number of requests to make wraps below 0. `wait_one_comp(0)` polls what
-- `polls` brings.
pub mod InFlight
pub mod Drain
mod Tests
use rlibv.Base.{
  ℕ, zero, suc, ◌+◌, ◌-◌, ◌%◌, Option, none, some, List, ltb, if◌then◌else◌, ◌>>=◌, true, u64_mod,
}
use rlibv.Marshal.{ByteBuffer}
use rlibv.Result.{Result, is_ok}
use rlibv.Channel.{Event}
use rlibv.Config.{Access, QpConfig}
use rlibv.Srpc.Client.{SRpc}
use rlibv.Verbs.{Verbs}
use rlibv.ConnectManager.{Called}
use rlibv.Qps.Rc.{wait_one_comp}
use rlibv.Qps.Op.{Op}
use rlibv.Qps.Op
use rlibv.Bench.Setup.{Flags, Sending, connect_worker, disconnect_worker}
use rlibv.Bench.Loop.{Client, Refused, Polls, counted}
use rlibv.Bench.OrBench.{or_post, or_start}

pub record Fly : Type 0 where
  pub client : Client Op
  pub recv_cnt : ℕ
  pub flying_cnt : ℕ

abbrev pub try_rounds : ℕ
try_rounds = 5

-- `FLAGS_para_factor - flying_cnt`, and `ss.data.counter - recv_cnt`, in 64 bits
abbrev pub minus : ℕ → ℕ → ℕ
minus a b = (a + u64_mod - b) % u64_mod

module _ (o : Op.Verbs) (refused : Refused) (polls : Polls) where
  -- A request is made and posted as in or_bench, always signaled, and counted.
  unfoldable pub fly_posts : ℕ → ℕ → ℕ → Client Op → Option (Client Op)
  fly_posts zero remote_buf rkey c = some c
  fly_posts (suc left) remote_buf rkey c =
      or_post o refused polls remote_buf rkey 0 true c >>= λ c'.
      fly_posts left remote_buf rkey (counted 1 c')

  -- `wait_one_comp(0)`, whose failure is not looked at
  unfoldable pub fly_try : Fly → Fly
  fly_try s =
      let (res, q) = wait_one_comp s.client.qp (polls s.client.waits) in
      record s {
        client = record s.client { qp = q; waits = s.client.waits + 1 };
        recv_cnt = if is_ok res then (s.recv_cnt + 1) % u64_mod else s.recv_cnt;
      }

  unfoldable pub fly_tries : ℕ → Fly → Fly
  fly_tries zero s = s
  fly_tries (suc n) s = fly_tries n (fly_try s)

  abbrev pub counted_flying : Fly → Fly
  counted_flying s = record s { flying_cnt = minus s.client.statics.counter s.recv_cnt }

  -- one round of the outer loop
  unfoldable pub fly_round : ℕ → ℕ → ℕ → Fly → Option Fly
  fly_round remote_buf rkey para_factor s =
      fly_posts (minus para_factor s.flying_cnt) remote_buf rkey s.client >>= λ c.
      some (counted_flying (fly_tries try_rounds (record s { client = c })))

  unfoldable pub fly_rounds : ℕ → ℕ → ℕ → ℕ → Fly → Option Fly
  fly_rounds zero remote_buf rkey para_factor s = some s
  fly_rounds (suc n) remote_buf rkey para_factor s =
      fly_round remote_buf rkey para_factor s >>= fly_rounds n remote_buf rkey para_factor

  -- The loop behind: it waits until all have completed. `none` is that `fuel` waits are not enough.
  unfoldable pub fly_drain : ℕ → Fly → Option Fly
  fly_drain zero s = if ltb s.recv_cnt s.client.statics.counter then none else some s
  fly_drain (suc fuel) s =
      let rest = fly_drain fuel (fly_try s) in
      if ltb s.recv_cnt s.client.statics.counter then rest else some s

  -- the whole worker, which is stopped behind `n` rounds and then waits at most `fuel` times
  unfoldable pub worker_fn :
      (v : Verbs)
      → Access
      → (ℕ → ℕ)
      → QpConfig
      → Flags
      → Sending
      → ℕ
      → ℕ
      → ℕ
      → SRpc
      → List Event
      → Option (Fly × Called (Result ByteBuffer))
  worker_fn v a af config f fails n fuel para_factor rpc evs =
      connect_worker v a af config f fails rpc evs >>= λ w.
      fly_rounds n w.remote_attr.buf w.remote_attr.key para_factor
        (record { client = or_start o refused polls f w; recv_cnt = 0; flying_cnt = 0 })
      >>= fly_drain fuel
      >>= λ s. disconnect_worker v a af config f fails w >>= λ called. some (s, called)
