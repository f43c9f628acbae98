-- ===== src/Bench/DbBench.antt =====
-- benchs/db_bench/client.cc: batches of ten linked requests, of which the last may be signaled.
pub mod Drift
mod Tests
use rlibv.Base.{
  ℕ, zero, suc, ◌+◌, ◌%◌, Bool, Option, none, some, List, [], ◌∷◌, if◌then◌else◌, ◌>>=◌, u32_mod,
}
use rlibv.Marshal.{ByteBuffer}
use rlibv.Result.{Result}
use rlibv.Channel.{Event}
use rlibv.Proto.{RegAttr}
use rlibv.Config.{Access, QpConfig, max_send_sz}
use rlibv.Srpc.Client.{SRpc}
use rlibv.Verbs.{Verbs}
use rlibv.ConnectManager.{Called}
use rlibv.Qps.Op.{set_wrid, set_next, set_flags, execute_batch}
use rlibv.Qps.Op
use rlibv.Bench.FastRandom.{with_seed0}
use rlibv.Bench.BenchOp.{BenchOp, new, set_type, init_lbuf, init_rbuf, refresh}
use rlibv.Bench.Reporter.{new_statics}
use rlibv.Bench.Window.{db_factor, db_fits, db_round}
use rlibv.Bench.Setup.{Flags, Sending, Worker, connect_worker, disconnect_worker}
use rlibv.Bench.Loop.{Client, Refused, Polls, wait_ok, posted_ok, counted}

abbrev pub flag_op : BenchOp → ℕ → BenchOp
flag_op b flags = record b { op = set_flags b.op flags }

-- `ops[db_factor - 1].set_flags(flags)`
unfoldable pub flag_last : ℕ → List BenchOp → List BenchOp
flag_last flags [] = []
flag_last flags (b ∷ []) = flag_op b flags ∷ []
flag_last flags (b ∷ (b' ∷ bs)) = b ∷ flag_last flags (b' ∷ bs)

module _ (o : Op.Verbs) where
  -- the request at `i`, before it is linked
  abbrev pub db_op : ℕ → RegAttr → RegAttr → ℕ → BenchOp
  db_op t mine remote i =
      let b =
        init_rbuf (init_lbuf (set_type o (new o 1 0) t) mine.buf 8 mine.key 1000) remote.buf
          remote.key 10000 in
      record b { op = set_wrid b.op i }

  abbrev pub linked : BenchOp → ℕ → BenchOp
  linked b i = record b { op = set_next b.op i }

  -- `left` requests from `i` on, each linked to the one behind it
  unfoldable pub db_ops : ℕ → RegAttr → RegAttr → ℕ → ℕ → List BenchOp
  db_ops t mine remote zero i = []
  db_ops t mine remote (suc zero) i = db_op t mine remote i ∷ []
  db_ops t mine remote (suc (suc left)) i =
      linked (db_op t mine remote i) (suc i) ∷ db_ops t mine remote (suc left) (suc i)

  unfoldable pub refresh_all : List BenchOp → Option (List BenchOp)
  refresh_all [] = some []
  refresh_all (b ∷ bs) = refresh o b >>= λ b'. refresh_all bs >>= λ bs'. some (b' ∷ bs')

  module _ (refused : Refused) (polls : Polls) where
    -- `ops[0].execute_batch(qp)`
    abbrev pub post_batch : Client (List BenchOp) → List BenchOp → Option (Client (List BenchOp))
    post_batch c [] = none
    post_batch c (b ∷ bs) =
        posted_ok c (b ∷ bs) (execute_batch o (refused c.posts) b.op c.qp) c.rand

    -- the inner loop up to its wait
    unfoldable pub db_post : ℕ → Bool → Client (List BenchOp) → Option (Client (List BenchOp))
    db_post i signaled c = refresh_all c.requests >>= λ ops.
        post_batch c (flag_last (if signaled then o.signaled else 0) ops)

    -- `n` rounds of the outer loop
    unfoldable pub db_rounds : ℕ → ℕ → ℕ → Client (List BenchOp) → Option (Client (List BenchOp))
    db_rounds zero max or_factor c = some c
    db_rounds (suc n) max or_factor c = db_round db_post (wait_ok polls) max or_factor c >>= λ c'.
        db_rounds n max or_factor (counted or_factor c')

    -- The requests and the generator before the loop. The local key is the one for remote access.
    unfoldable pub db_start : {v : Verbs} → ℕ → Flags → Worker v → Client (List BenchOp)
    db_start t f w = record {
      requests = db_ops t w.local_attr w.remote_attr db_factor 0;
      qp = w.qp.state;
      rand = with_seed0 ((0xdeadbeaf + f.worker_id) % u32_mod);
      statics = new_statics;
      posts = 0;
      waits = 0;
    }

    -- the whole worker for requests of type `t`, which is stopped behind `n` rounds
    unfoldable pub worker_fn :
        (v : Verbs)
        → Access
        → (ℕ → ℕ)
        → QpConfig
        → Flags
        → Sending
        → ℕ
        → ℕ
        → ℕ
        → SRpc
        → List Event
        → Option (Client (List BenchOp) × Called (Result ByteBuffer))
    worker_fn v a af config f fails t n or_factor rpc evs =
        connect_worker v a af config f fails rpc evs >>= λ w.
        (if db_fits or_factor
          then (db_rounds n (max_send_sz w.qp.my_config) or_factor (db_start t f w) >>= λ c.
              disconnect_worker v a af config f fails w >>= λ called. some (c, called))
          else none)
