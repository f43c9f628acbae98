-- ===== src/Bench/Setup.antt =====
-- benchs/*/client.cc: how a client connects before its loop, and its request to take the queue pair off again.
--
-- `none` is an assertion that fails, or a `value()` or an `at` that throws. The list of events is what the client's
-- socket brings; the allocator, and the errors of `sendto`, are parameters.
pub mod Connected
mod Tests
use rlibv.Base.{
  ℕ, Bool, Option, none, some, List, [], ◌∷◌, ◌++◌, ◌*◌, get_elem?, if◌then◌else◌, ◌>>=◌,
}
use rlibv.Base.Text.{codes}
use rlibv.Result.{Result, timeout, is_ok, is_code}
use rlibv.Marshal.{ByteBuffer}
use rlibv.Channel.{Event}
use rlibv.Config.{Access, QpConfig}
use rlibv.Proto.{RegAttr}
use rlibv.Srpc.Client.{SRpc}
use rlibv.Verbs.{Verbs}
use rlibv.Nic.{RNic, query_dev_names}
use rlibv.Nic
use rlibv.Rmem.{new_mem, default_flags, get_reg_attr}
use rlibv.Rmem
use rlibv.IpName.{to_decimal}
use rlibv.ConnectManager.{Called, wait_ready, cc_rc, fetch_remote_mr, delete_remote_rc}
use rlibv.Qps.Rc.{bind_local_mr, bind_remote_mr}
use rlibv.Qps.RcQp.{RcQp}
use rlibv.System.{devices}

-- The flags of the command line that the connection reads, with the number of the worker.
pub record Flags : Type 0 where
  pub client_name : ByteBuffer
  pub nic_idx : ℕ
  pub reg_nic_name : ℕ
  pub reg_mem_name : ℕ
  pub worker_id : ℕ

-- the name of the worker's queue pair
abbrev pub qp_name : Flags → ByteBuffer
qp_name f = f.client_name ++ (codes " thread-qp" ++ to_decimal f.worker_id)

-- what `sendto` does: for the heartbeats, for `cc_rc`, for `fetch_remote_mr`, for `delete_remote_rc`
pub record Sending : Type 0 where
  pub heartbeats : ℕ → Option ByteBuffer
  pub creates : Option ByteBuffer
  pub fetches : Option ByteBuffer
  pub deletes : Option ByteBuffer

pub record Worker (v : Verbs) : Type 0 where
  pub qp : RcQp v
  pub rpc : SRpc
  pub key : ℕ
  pub local_attr : RegAttr
  pub remote_attr : RegAttr
  pub left : List Event

module _ (v : Verbs) (a : Access) (af : ℕ → ℕ) (config : QpConfig) (f : Flags)
    (fails : Sending) where
  -- `bind_remote_mr` and `bind_local_mr`
  abbrev pub bound : RcQp v → RegAttr → RegAttr → RcQp v
  bound q remote mine = record q { state = bind_local_mr (bind_remote_mr q.state remote) mine }

  -- from the registration of the local memory, of 20 megabytes, on
  unfoldable pub bind_mrs : RNic v → Called (Result (ByteBuffer × ℕ) × RcQp v) → Option (Worker v)
  bind_mrs nic c =
      Rmem.create v (new_mem af (1024 * 1024 * 20)) nic (default_flags a) >>= λ local_mr.
      fetch_remote_mr fails.fetches c.rpc f.reg_mem_name c.left >>= λ fetched.
      (if is_ok fetched.result
        then (get_reg_attr v local_mr >>= λ mine. some (record {
          qp = bound c.result.1 fetched.result.desc.1 mine;
          rpc = fetched.rpc;
          key = c.result.0.desc.1;
          local_attr = mine;
          remote_attr = fetched.result.desc.1;
          left = fetched.left;
        }))
        else none)

  -- step 2, with a server that answered
  unfoldable pub create_remote : RNic v → RcQp v → SRpc → List Event → Option (Worker v)
  create_remote nic qp rpc evs =
      cc_rc (devices v) fails.creates rpc (qp_name f) qp f.reg_nic_name config evs >>= λ c.
      (if is_ok c.result.0 then bind_mrs nic c else none)

  -- the steps of `worker_fn` up to its loop
  unfoldable pub connect_worker : SRpc → List Event → Option (Worker v)
  connect_worker rpc evs = query_dev_names v >>= λ names. get_elem? names f.nic_idx >>= λ idx.
      Nic.create v idx 0 >>= λ nic. (devices v).create nic config none >>= λ qp.
      wait_ready fails.heartbeats rpc 2 evs >>= λ c.
      (if is_code c.result timeout then none else create_remote nic qp c.rpc c.left)

  -- behind the loop; what the call returns is not looked at
  unfoldable pub disconnect_worker : Worker v → Option (Called (Result ByteBuffer))
  disconnect_worker w = delete_remote_rc fails.deletes w.rpc (qp_name f) w.key w.left
