-- ===== src/Bench/DcBench.antt =====
-- benchs/dc_bench/client.cc: reads from several machines by DC queue pairs.
--
-- `net` is what the socket for a machine brings, and what `sendto` does there. `exp_read` and `exp_signaled` are
-- IBV_EXP_WR_RDMA_READ and IBV_EXP_SEND_SIGNALED. `none` is an assertion that fails, a `value()` or an `at` that
-- throws, or undefined behaviour: a division by zero, or a null pointer that is passed to the verbs library.
pub mod Inside
mod Tests
use rlibv.Base.{
  ℕ, zero, suc, ◌+◌, ◌-◌, ◌*◌, ltb, ◌/◌, ◌%◌, ◌^◌, Bool, true, false, Option, none, some, List, [],
  ◌∷◌, ◌++◌, length, get_elem?, set, ◌==◌, ◌&&◌, ◌||◌, if◌then◌else◌, ◌>>=◌, u32_mod, u64_mod,
}
use rlibv.Base.Text.{codes}
use rlibv.Marshal.{ByteBuffer}
use rlibv.Result.{timeout, is_ok, is_code}
use rlibv.Channel.{Event}
use rlibv.Config.{Access, QpConfig}
use rlibv.Proto.{RegAttr, DcAttr}
use rlibv.Srpc.Client.{SRpc}
use rlibv.Verbs.{Verbs, zero_ah_attr}
use rlibv.Nic.{RNic, query_dev_names}
use rlibv.Nic
use rlibv.Rmem.{new_mem, default_flags, get_reg_attr}
use rlibv.Rmem
use rlibv.ConnectManager.{wait_ready, fetch_remote_mr, fetch_remote_dc_attr}
use rlibv.Qps.Rc.{Poll}
use rlibv.Qps.Dc.{Dc, ExpSendWr, post_send, wait_one_comp}
use rlibv.Qps.Dc
use rlibv.Bench.FastRandom.{FastRandom, with_seed0, next}
use rlibv.Bench.Reporter.{Statics, new_statics, increment}

-- whether `strtok` takes the byte for the end of a token
abbrev pub is_delim : ByteBuffer → ℕ → Bool
is_delim [] c = false
is_delim (d ∷ ds) c = (c == d) || is_delim ds c

abbrev pub pushed_token : ByteBuffer → List ByteBuffer → List ByteBuffer
pushed_token [] tokens = tokens
pushed_token (c ∷ cs) tokens = (c ∷ cs) ∷ tokens

-- the token at the front, which may be empty, and those behind it
unfoldable pub tokens_from : ByteBuffer → ByteBuffer → ByteBuffer × List ByteBuffer
tokens_from delim [] = ([], [])
tokens_from delim (c ∷ cs) =
    let rest = tokens_from delim cs in
    if is_delim delim c then ([], pushed_token rest.0 rest.1) else (c ∷ rest.0, rest.1)

-- for texts without a byte 0
unfoldable pub split : ByteBuffer → ByteBuffer → List ByteBuffer
split str delim = let found = tokens_from delim str in pushed_token found.0 found.1

-- The flags of the command line, with the number of the worker.
pub record DcFlags : Type 0 where
  pub nic_idx : ℕ
  pub reg_mem_name : ℕ
  pub mem_sz : ℕ
  pub dc_num : ℕ
  pub payload_sz : ℕ
  pub machines : ByteBuffer
  pub worker_id : ℕ

pub record Net : Type 0 where
  pub rpc : SRpc
  pub heartbeats : ℕ → Option ByteBuffer
  pub attrs : Option ByteBuffer
  pub fetches : Option ByteBuffer
  pub events : List Event

-- `remote_regs`, `dc_nodes` and `address_handlers`
pub record Remotes (v : Verbs) : Type 0 where
  pub regs : List RegAttr
  pub nodes : List DcAttr
  pub handlers : List (Option v.Ah)

pub record DcState (v : Verbs) : Type 0 where
  pub dcs : List (Dc v)
  pub dc_idx : ℕ
  pub rand : FastRandom
  pub statics : Statics
  -- the requests that were posted, the last one first
  pub sent : List (ExpSendWr v)

-- `int mod`, as `rand_val % mod` reads it: the quotient in 32 bits, as a `u64` where it is below 0
unfoldable pub mod_of : DcFlags → ℕ
mod_of f =
    let low : ℕ = f.mem_sz / f.payload_sz % u32_mod in
    if ltb low (2 ^ 31) then low else u64_mod - u32_mod + low

module _ (v : Verbs) where
  -- The members that the code sets, and zeros; an outer `none` is a null protection domain.
  unfoldable pub create_ah : RNic v → ℕ → Option (Option v.Ah)
  create_ah nic lid = nic.pd >>= λ pd.
      some (v.create_ah pd (record zero_ah_attr { dlid = lid % 2 ^ 16; port_num = 1 }))

  abbrev pub pushed : Remotes v → RegAttr → DcAttr → Option v.Ah → Remotes v
  pushed r reg node ah = record {
    regs = r.regs ++ (reg ∷ []);
    nodes = r.nodes ++ (node ∷ []);
    handlers = r.handlers ++ (ah ∷ []);
  }

  -- what is asked of one machine
  unfoldable pub fetch_machine : RNic v → ℕ → Net → Remotes v → Option (Remotes v)
  fetch_machine nic reg_mem_name net r = wait_ready net.heartbeats net.rpc 2 net.events >>= λ c.
      (if is_code c.result timeout
        then none
        else (fetch_remote_dc_attr net.attrs c.rpc (codes "server_dc") c.left >>= λ a.
            (if is_ok a.result
              then (create_ah nic a.result.desc.1.lid >>= λ ah.
                  fetch_remote_mr net.fetches a.rpc reg_mem_name a.left >>= λ m.
                  (if is_ok m.result
                    then some (pushed r m.result.desc.1 a.result.desc.1 ah)
                    else none))
              else none)))

  -- the loop over the machines
  unfoldable pub fetch_machines :
      RNic v → ℕ → (ByteBuffer → Net) → List ByteBuffer → Remotes v → Option (Remotes v)
  fetch_machines nic reg_mem_name net [] r = some r
  fetch_machines nic reg_mem_name net (addr ∷ addrs) r =
      fetch_machine nic reg_mem_name (net addr) r >>= fetch_machines nic reg_mem_name net addrs

  -- `n` queue pairs
  unfoldable pub make_dcs : RNic v → QpConfig → ℕ → Option (List (Dc v))
  make_dcs nic config zero = some []
  make_dcs nic config (suc n) =
      Dc.create v nic config >>= λ made. made >>= λ q. make_dcs nic config n >>= λ qs. some (q ∷ qs)

  -- The request for the number that was drawn.
  unfoldable pub dc_request :
      ℕ → ℕ → DcFlags → Remotes v → RegAttr → ℕ → Option (Dc.ReqDesc v × Dc.ReqPayload)
  dc_request exp_read exp_signaled f r mine rand_val =
      let idx : ℕ = rand_val % length r.nodes in
      let offset : ℕ = rand_val % mod_of f in
      get_elem? r.handlers idx >>= λ handler. handler >>= λ ah. get_elem? r.nodes idx >>= λ node.
      get_elem? r.regs idx >>= λ reg. some (
        record {
          op = exp_read;
          send_flags = exp_signaled;
          ah = ah;
          dct_num = node.dct_num;
          dc_key = node.dc_key;
          len = f.payload_sz % u32_mod;
        },
        record {
          laddr = mine.buf;
          raddr = (reg.buf + offset * f.payload_sz) % u64_mod;
          lkey = mine.key;
          rkey = reg.key;
        },
      )

  module _ (exp_read exp_signaled : ℕ) (refused : ℕ → Option ByteBuffer) (polls : ℕ → List Poll)
      (f : DcFlags) where
    -- a request at the queue pair at `at`, and its completion
    unfoldable pub dc_post :
        ℕ → Dc v → FastRandom → Dc.ReqDesc v × Dc.ReqPayload → DcState v → Option (DcState v)
    dc_post at dc rand req s =
        let (send_res, wr) = post_send v (refused (length s.sent)) req.0 req.1 in
        let (res, dc') = wait_one_comp v dc (polls (length s.sent)) in
        if is_ok send_res
        then (if is_ok res
            then some (record {
              dcs = set s.dcs at dc';
              dc_idx = at;
              rand = rand;
              statics = increment s.statics 1;
              sent = wr ∷ s.sent;
            })
            else none)
        else none

    -- one round of the loop
    unfoldable pub dc_round : Remotes v → RegAttr → DcState v → Option (DcState v)
    dc_round r mine s =
        let at : ℕ = (s.dc_idx + 1) % f.dc_num in
        let (rand_val, rand) = next s.rand in
        if f.payload_sz == 0
        then none
        else (if mod_of f == 0
            then none
            else (get_elem? s.dcs at >>= λ dc.
                dc_request exp_read exp_signaled f r mine rand_val >>= λ req.
                dc_post at dc rand req s))

    unfoldable pub dc_rounds : ℕ → Remotes v → RegAttr → DcState v → Option (DcState v)
    dc_rounds zero r mine s = some s
    dc_rounds (suc n) r mine s = dc_round r mine s >>= dc_rounds n r mine

    -- the assertions on the three lengths
    abbrev pub complete : ℕ → Remotes v → Bool
    complete num_machine r =
        (num_machine == length r.nodes)
        && (num_machine == length r.handlers)
        && (num_machine == length r.regs)

    -- The whole worker, which is stopped behind `n` rounds.
    unfoldable pub dc_worker_fn :
        Access → (ℕ → ℕ) → QpConfig → (ByteBuffer → Net) → ℕ → Option (DcState v)
    dc_worker_fn a af config net n = query_dev_names v >>= λ names.
        get_elem? names f.nic_idx >>= λ idx. Nic.create v idx 0 >>= λ nic.
        let machines = split f.machines (codes " ") in
        if length machines == 0
        then none
        else (fetch_machines nic f.reg_mem_name net machines
              (record { regs = []; nodes = []; handlers = [] })
            >>= λ r.
                if complete (length machines) r
                then (Rmem.create v (new_mem af f.mem_sz) nic (default_flags a) >>= λ local_mr.
                    get_reg_attr v local_mr >>= λ mine. make_dcs nic config f.dc_num >>= λ dcs.
                    dc_rounds n r mine (record {
                      dcs = dcs;
                      dc_idx = 0;
                      rand = with_seed0 ((0xdeafbeaf + f.worker_id) % u32_mod);
                      statics = new_statics;
                      sent = [];
                    }))
                else none)
