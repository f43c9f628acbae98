-- ===== src/RecvManager.antt =====
-- core/qps/rc_recv_manager.hh: `RecvManager`, which serves the requests for queue pairs that receive
-- messages.
--
-- The manager works on an `RCtrl` and on registries of its own. The allocators are shared objects of the
-- user's: a registered entry holds the number of one, and `A` is the state of all. A failed assertion
-- aborts the process.
pub mod Created
pub mod Refused
pub mod Session
mod Tests
use rlibv.Base.{
  ℕ, ◌+◌, ◌%◌, Bool, true, false, Option, none, some, List, [], ◌∷◌, ◌==◌, if◌then◌else◌, ◌>>=◌,
  u32_mod,
}
use rlibv.Base.Keys.{Eq, nat_eq, string_eq}
use rlibv.Result.{Result}
use rlibv.Marshal.{ByteBuffer, dump, dedump}
use rlibv.Factory.{Store, query, reg}
use rlibv.Proto.{wrong_arg, to_string, RcReq, RcReply, rc_req_layout, rc_reply_layout, create_rcm}
use rlibv.Srpc.Server.{Handler, Handlers, register_handler}
use rlibv.RCtrl.{
  Devices, RCtrl, rc_status, update, fetch_qp_attr_reply, register_new, registered, handlers,
}
use rlibv.Qps.RecvEntries.{RecvEntries, Allocator, Posted, alloc_rest, create, post_recvs}

pub record RecvCommon (d : Devices) : Type 0 where
  pub cq : d.Cq
  pub allocator : ℕ

-- `RecvCommon::create`
unfoldable pub create_common : {d : Devices} → d.Cq → ℕ → Option (RecvCommon d)
create_common cq allocator = some (record { cq = cq; allocator = allocator })

pub record Managed (d : Devices) (A : Type 0) : Type 0 where
  pub ctrl : RCtrl d
  pub reg_recv_cqs : Store ByteBuffer (RecvCommon d)
  pub reg_recv_entries : Store ByteBuffer RecvEntries
  pub allocs : A

-- What serving a decoded request does.
pub data Outcome (d : Devices) (A : Type 0) : Type 0 where
  replied : RcReply → Managed d A → Outcome d A
  threw : Managed d A → Outcome d A
  aborted : Outcome d A

-- The allocators' `alloc_one`, and the template's `R`
module _ (d : Devices) {A : Type 0} (alloc_one : ℕ → Allocator A) (depth : ℕ) where
  -- Step 1.0: a queue that is not registered is none.
  unfoldable pub recv_cq_for : Managed d A → RcReq → Option d.Cq
  recv_cq_for m req =
      if req.whether_recv == 1
      then (query m.reg_recv_cqs (to_string req.name_recv) >>= λ c. some c.cq)
      else none

  -- Step 1.4, with the registered entries: the posting leaves the entries and the queue pair changed.
  -- The assertion fails where the device refuses.
  abbrev pub posted_to : Managed d A → ByteBuffer → ℕ → Posted → Option ℕ × d.Rc → Outcome d A
  posted_to m name key p (some errno, rc) = aborted
  posted_to m name key p (none, rc) =
      let ctrl = record m.ctrl {
        registered_qps = update (to_string name) rc m.ctrl.registered_qps;
      } in
      replied (fetch_qp_attr_reply d ctrl name key) (record m {
        ctrl = ctrl;
        reg_recv_entries = update (to_string name) p.ring m.reg_recv_entries;
      })

  unfoldable pub post_all : Managed d A → ByteBuffer → ℕ → d.Rc → RecvEntries → Outcome d A
  post_all m name key rc entries = elim (post_recvs depth none entries depth) [
    | none ↦ aborted
    | some p ↦ posted_to m name key p (d.post_recv rc p.seen)
  ]

  -- The end of step 1.3: registering the entries; the assertion fails where the name is taken.
  unfoldable pub register_entries : Managed d A → ByteBuffer → ℕ → d.Rc → RecvEntries → Outcome d A
  register_entries m name key rc entries =
      let (res, store) =
        reg m.reg_recv_entries (to_string name) entries (m.ctrl.keys m.ctrl.drawn) in
      elim res [
        | none ↦ aborted
        | some k ↦
            post_all
              (record m {
                reg_recv_entries = store;
                ctrl = record m.ctrl { drawn = m.ctrl.drawn + 1 };
              })
              name key rc entries
      ]

  -- From step 1.3 on, for the connected queue pair `rc`. The queue is looked up again, also where none
  -- was asked for.
  unfoldable pub with_recvs : Managed d A → RcReq → ℕ → d.Rc → Outcome d A
  with_recvs m req key rc = elim (query m.reg_recv_cqs (to_string req.name_recv)) [
    | none ↦ threw m
    | some c ↦ elim (create (alloc_one c.allocator) depth m.allocs (req.max_recv_sz % u32_mod)) [
      | none ↦ threw (record m {
        allocs = alloc_rest (alloc_one c.allocator) depth m.allocs (req.max_recv_sz % u32_mod);
      })
      | some (entries, allocs) ↦
          register_entries (record m { allocs = allocs }) req.name key rc entries
    ]
  ]

  -- the queue pair behind step 1.2
  abbrev pub connected_qp : d.Rc → Option (Result ByteBuffer × d.Rc) → d.Rc
  connected_qp rc none = rc
  connected_qp rc (some x) = x.1

  -- behind steps 1.1 and 1.2, whose result is a key or none
  unfoldable pub after_connect : Managed d A → RcReq → d.Rc → Option ℕ × RCtrl d → Outcome d A
  after_connect m req rc (none, ctrl) = replied (rc_status wrong_arg) (record m { ctrl = ctrl })
  after_connect m req rc (some key, ctrl) =
      with_recvs (record m { ctrl = ctrl }) req key (connected_qp rc (d.connect rc req.attr))

  -- Step 1
  unfoldable pub create_msg_qp : Managed d A → RcReq → Outcome d A
  create_msg_qp m req = elim (query m.ctrl.opened_nics req.nic_id) [
    | none ↦ replied (rc_status wrong_arg) m
    | some nic ↦ elim (d.create nic req.config (recv_cq_for m req)) [
      | none ↦ threw m
      | some rc ↦ elim (register_new d m.ctrl (to_string req.name) rc req.attr) [
        | none ↦ threw (record m { ctrl = registered d m.ctrl (to_string req.name) rc })
        | some r ↦ after_connect m req rc r
      ]
    ]
  ]

  -- the reply to a decoded request, with the sanity check as it is written
  unfoldable pub msg_rc_reply : Managed d A → RcReq → Outcome d A
  msg_rc_reply m req =
      if req.whether_create == 0
      then replied (rc_status wrong_arg) m
      else (if req.whether_create == 1
          then create_msg_qp m req
          else replied (fetch_qp_attr_reply d m.ctrl req.name 0) m)

  abbrev pub reply_of : Outcome d A → Option ByteBuffer × Option (Managed d A)
  reply_of (replied reply m) = (some (dump rc_reply_layout reply), some m)
  reply_of (threw m) = (none, some m)
  reply_of aborted = (none, none)

  -- The server's state is `none` once its process has aborted; what is returned then stands for nothing.
  unfoldable pub msg_rc_handler : Handler (Option (Managed d A))
  msg_rc_handler none b = (none, none)
  msg_rc_handler (some m) b = elim (dedump rc_req_layout b) [
    | none ↦ (some (dump rc_reply_layout (rc_status wrong_arg)), some m)
    | some req ↦ reply_of (msg_rc_reply m req)
  ]

-- a handler of `RCtrl` at the state of the manager
abbrev pub lift : {d : Devices} {A : Type 0} → Handler (RCtrl d) → Handler (Option (Managed d A))
lift f none b = (none, none)
lift f (some m) b = let (reply, ctrl) = f m.ctrl b in (reply, some (record m { ctrl = ctrl }))

abbrev pub lift_all :
    {d : Devices} {A : Type 0} → Handlers (RCtrl d) → Handlers (Option (Managed d A))
lift_all [] = []
lift_all ((id, f) ∷ hs) = (id, lift f) ∷ lift_all hs

-- the constructor of `RecvManager`, on the handlers of `RCtrl`
unfoldable pub managed_handlers :
    (d : Devices) {A : Type 0} (alloc_one : ℕ → Allocator A) (depth : ℕ)
    → Handlers (Option (Managed d A))
managed_handlers d alloc_one depth =
    (register_handler (lift_all (handlers d)) create_rcm (msg_rc_handler d alloc_one depth)).1
