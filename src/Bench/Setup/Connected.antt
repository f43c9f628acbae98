-- ===== src/Bench/Setup/Connected.antt =====
-- What a client of benchs/*/client.cc has when it is connected.
use rlibv.Base.{
  ℕ, ◌≡◌, refl, Bool, true, false, none≢some, Option, none, some, List, bind_some, if◌then◌else◌,
  ◌*◌, get_elem?,
}
use mathlib.Core.Option.{some_inj}
use mathlib.Core.Path.{subst}
use rlibv.Result.{Result, is_ok, is_code, timeout}
use rlibv.Marshal.{ByteBuffer}
use rlibv.Channel.{Event}
use rlibv.Config.{Access, QpConfig}
use rlibv.Proto.{RegAttr}
use rlibv.Srpc.Client.{SRpc}
use rlibv.Verbs.{Verbs, Documented}
use rlibv.Nic.{RNic, DevIdx, query_dev_names}
use rlibv.Nic
use rlibv.ConnectManager.{Called, cc_rc, fetch_remote_mr, wait_ready}
use rlibv.ConnectManager.Connects.{cc_rc-ok}
use rlibv.Qps.RcQp.{RcQp}
use rlibv.Qps.RcQp.Connect.{Rts}
use rlibv.Qps.Rc.{bind_local_mr, bind_remote_mr}
use rlibv.Rmem.{RegHandler, get_reg_attr, new_mem, default_flags}
use rlibv.Rmem
use rlibv.System.{devices}
use rlibv.System.Ready.{connected-Rts}
use rlibv.Bench.Setup.{Flags, Sending, Worker, qp_name, bind_mrs, create_remote, connect_worker}

-- where a test guards an option that has a value
guard_some :
    {A : Type 0} (b : Bool) (x : Option A) (a : A)
    → (if b then x else none) ≡ some a
    → (b ≡ true) × (x ≡ some a)
guard_some true x a e = (refl, e)
guard_some false x a e = absurd (none≢some e)

unless_some :
    {A : Type 0} (b : Bool) (x : Option A) (a : A)
    → (if b then none else x) ≡ some a
    → (b ≡ false) × (x ≡ some a)
unless_some true x a e = absurd (none≢some e)
unless_some false x a e = (refl, e)

module _ (v : Verbs) (doc : Documented v) (a : Access) (af : ℕ → ℕ) (config : QpConfig) (f : Flags)
    (fails : Sending) where
  -- How a client came to a connection: the NIC is the one of its flags, the queue pair was created on it,
  -- `wait_ready` did not time out, and `cc_rc` returned `Ok`.
  pub record Asked (rpc : SRpc) (evs : List Event) (nic : RNic v)
      (made : Called (Result (ByteBuffer × ℕ) × RcQp v)) : Type 0 where
    pub names : List DevIdx
    pub listed : query_dev_names v ≡ some names
    pub idx : DevIdx
    pub chosen : get_elem? names f.nic_idx ≡ some idx
    pub opened : Nic.create v idx 0 ≡ some nic
    pub qp : RcQp v
    pub created : (devices v).create nic config none ≡ some qp
    pub greeted : Called (Result ByteBuffer)
    pub waited : wait_ready fails.heartbeats rpc 2 evs ≡ some greeted
    pub in_time : is_code greeted.result timeout ≡ false
    pub asked :
        cc_rc
          (devices v)
          fails.creates
          greeted.rpc
          (qp_name f)
          qp
          f.reg_nic_name
          config
          greeted.left
        ≡ some made
    pub ok : is_ok made.result.0 ≡ true

  -- what a connected client has
  pub record Connected (rpc : SRpc) (evs : List Event) (w : Worker v) : Type 0 where
    pub nic : RNic v
    pub made : Called (Result (ByteBuffer × ℕ) × RcQp v)
    pub connection : Asked rpc evs nic made
    pub given_key : w.key ≡ made.result.0.desc.1
    pub same_dummy : w.qp.dummy ≡ made.result.1.dummy
    pub rts : Rts v w.qp
    pub local_bound : w.qp.state.local_mr ≡ some w.local_attr
    pub remote_bound : w.qp.state.remote_mr ≡ some w.remote_attr
    pub local_mr : RegHandler v
    pub registered :
        Rmem.create v (new_mem af (1024 * 1024 * 20)) nic (default_flags a) ≡ some local_mr
    pub own : get_reg_attr v local_mr ≡ some w.local_attr
    pub fetched : Called (Result (ByteBuffer × RegAttr))
    pub asked : fetch_remote_mr fails.fetches made.rpc f.reg_mem_name made.left ≡ some fetched
    pub replied_ok : is_ok fetched.result ≡ true
    pub told : w.remote_attr ≡ fetched.result.desc.1
    pub rpc_behind : w.rpc ≡ fetched.rpc
    pub left_behind : w.left ≡ fetched.left

  bind_mrs-Connected :
      (rpc : SRpc) (evs : List Event) (nic : RNic v) (c : Called (Result (ByteBuffer × ℕ) × RcQp v))
      (w : Worker v)
      → Rts v c.result.1
      → Asked rpc evs nic c
      → bind_mrs v a af config f fails nic c ≡ some w
      → Connected rpc evs w
  unfolding bind_mrs bind_local_mr bind_remote_mr
  bind_mrs-Connected rpc evs nic c w rts connection e =
      let (local_mr, registered, e₁) =
        bind_some (Rmem.create v (new_mem af (1024 * 1024 * 20)) nic (default_flags a)) _ w e in
      let (fetched, asked, e₂) =
        bind_some (fetch_remote_mr fails.fetches c.rpc f.reg_mem_name c.left) _ w e₁ in
      let (replied_ok, e₃) = guard_some (is_ok fetched.result) _ w e₂ in
      let (mine, own, e₄) = bind_some (get_reg_attr v local_mr) _ w e₃ in
      subst (Connected rpc evs) (some_inj.0 e₄) (record {
        nic = nic;
        made = c;
        connection = connection;
        given_key = refl;
        same_dummy = refl;
        rts = record { qp = rts.qp; is_valid = rts.is_valid; has_qp = rts.has_qp; rts = rts.rts };
        local_bound = refl;
        remote_bound = refl;
        local_mr = local_mr;
        registered = registered;
        own = own;
        fetched = fetched;
        asked = asked;
        replied_ok = replied_ok;
        told = refl;
        rpc_behind = refl;
        left_behind = refl;
      })

  -- The verbs library does what is documented of it. Whatever its socket brings, a client that comes to its
  -- loop, with no failed assertion, has a queue pair that is valid and ready to send. It created the queue
  -- pair on the NIC of its flags, and behind a `wait_ready` that did not time out `cc_rc` returned `Ok`, with
  -- the key that the client keeps. The queue pair is bound to the attributes of 20 megabytes of its own that were
  -- registered at this NIC, and to the attributes that the next call, `fetch_remote_mr` for the region of its
  -- flags, returned, with `Ok`; the channel and what is left of the events are as this call leaves them.
  pub connect_worker-Connected :
      (rpc : SRpc) (evs : List Event) (w : Worker v)
      → connect_worker v a af config f fails rpc evs ≡ some w
      → Connected rpc evs w
  unfolding connect_worker create_remote
  connect_worker-Connected rpc evs w e =
      let (names, listed, e₁) = bind_some (query_dev_names v) _ w e in
      let (idx, chosen, e₂) = bind_some (get_elem? names f.nic_idx) _ w e₁ in
      let (nic, opened, e₃) = bind_some (Nic.create v idx 0) _ w e₂ in
      let (qp, created, e₄) = bind_some ((devices v).create nic config none) _ w e₃ in
      let (c, waited, e₅) = bind_some (wait_ready fails.heartbeats rpc 2 evs) _ w e₄ in
      let (in_time, e₆) =
        unless_some (is_code c.result timeout)
          (create_remote v a af config f fails nic qp c.rpc c.left) w e₅ in
      let (made, asked, e₇) =
        bind_some
          (cc_rc (devices v) fails.creates c.rpc (qp_name f) qp f.reg_nic_name config c.left) _ w
          e₆ in
      let (ok, e₈) =
        guard_some (is_ok made.result.0) (bind_mrs v a af config f fails nic made) w e₇ in
      let (attr, res, connected, good) =
        cc_rc-ok (devices v) fails.creates c.rpc (qp_name f) qp f.reg_nic_name config c.left made
          asked ok in
      bind_mrs-Connected rpc evs nic made w
        (connected-Rts v doc qp made.result.1 attr res connected good)
        (record {
          names = names;
          listed = listed;
          idx = idx;
          chosen = chosen;
          opened = opened;
          qp = qp;
          created = created;
          greeted = c;
          waited = waited;
          in_time = in_time;
          asked = asked;
          ok = ok;
        })
        e₈
