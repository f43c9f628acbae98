-- ===== src/RCtrl.antt =====
-- core/rctrl.hh: `RCtrl`, the server of the control path, with its handlers.
--
-- A handler's state is the registries. What the queue pairs, memory regions and NICs do is the
-- interface `Devices`. `RC::create` gives `none` where its result has no value and `.value()` throws;
-- an exception that a handler throws is `none` again. `keys` is what the coming calls of
-- `generate_key` return. RCtrl.Daemon has the thread that runs the event loop.
pub mod Registered
pub mod Entries
pub mod CreateDelete
pub mod Failures
pub mod Daemon
pub mod Sound
mod Tests
use rlibv.Base.{
  ℕ, ◌+◌, Bool, true, false, Option, none, some, List, [], ◌∷◌, ◌==◌, if◌then◌else◌, not, ◌>>=◌,
}
use rlibv.Base.Keys.{Eq, nat_eq, string_eq}
use rlibv.Result.{Result, is_ok}
use rlibv.Marshal.{ByteBuffer, Packed, dump, dedump}
use rlibv.Config.{QpConfig}
use rlibv.Factory.{Store, find, query, reg, dereg}
use rlibv.Proto.{
  CallbackStatus, ok, not_found, wrong_arg, auth_err, status_code, to_string, RegAttr, QpAttr,
  DcAttr, null_reg_attr, null_qp_attr, null_dc_attr, MrReq, MrReply, QpReq, RcReq, RcReply, DcReply,
  DelRcReq, mr_req_layout, mr_reply_layout, qp_req_layout, rc_req_layout, rc_reply_layout,
  dc_reply_layout, del_rc_req_layout, fetch_mr, create_rc, fetch_qp_attr, fetch_dc_attr,
}
use rlibv.Proto
use rlibv.Srpc.Server.{Handler, Handlers, register_handler, new_factory}

-- What the server needs of the resources that are registered with it. `create` takes the queue for
-- receives, or none. `connect` gives the queue pair behind the call with its result, and `none` where it throws,
-- which it does before it changes the queue pair. `post_recv` is
-- `ibv_post_recv` on a queue pair, for the requests that it reads: an error number, or none.
pub record Devices : Type 1 where
  pub Nic : Type 0
  pub Mr : Type 0
  pub Rc : Type 0
  pub Dc : Type 0
  pub Cq : Type 0
  pub get_reg_attr : Mr → Option RegAttr
  pub my_attr : Rc → QpAttr
  pub remote_dct_attr : Dc → DcAttr
  pub create : Nic → QpConfig → Option Cq → Option Rc
  pub connect : Rc → QpAttr → Option (Result ByteBuffer × Rc)
  pub post_recv : Rc → List ℕ → Option ℕ × Rc

-- The registries, by the ids and names.
pub record RCtrl (d : Devices) : Type 0 where
  pub registered_mrs : Store ℕ d.Mr
  pub registered_qps : Store ByteBuffer d.Rc
  pub registered_dcs : Store ByteBuffer d.Dc
  pub opened_nics : Store ℕ d.Nic
  pub keys : ℕ → ℕ
  pub drawn : ℕ

-- replies of a status alone; the other members are zeros
abbrev pub mr_status : CallbackStatus → MrReply
mr_status s = record { status = status_code s; attr = null_reg_attr }

abbrev pub rc_status : CallbackStatus → RcReply
rc_status s = record { status = status_code s; attr = null_qp_attr; key = 0 }

abbrev pub dc_status : CallbackStatus → DcReply
dc_status s = record { status = status_code s; attr = null_dc_attr; key = 0 }

-- the resource under a name, replaced by what a method made of it
unfoldable pub update : {V : Type 0} → ByteBuffer → V → Store ByteBuffer V → Store ByteBuffer V
update k v [] = []
update k v ((j, w, key) ∷ store) =
    let rest = update k v store in
    if string_eq.beq j k then (j, v, key) ∷ store else (j, w, key) ∷ rest

module _ (d : Devices) where
  unfoldable pub fetch_mr_handler : Handler (RCtrl d)
  fetch_mr_handler s b = elim (dedump mr_req_layout b) [
    | none ↦ (some (dump mr_reply_layout (mr_status wrong_arg)), s)
    | some req ↦ elim (query s.registered_mrs req.id) [
      | none ↦ (some (dump mr_reply_layout (mr_status not_found)), s)
      | some mr ↦ (
        d.get_reg_attr mr >>= λ a.
            some (dump mr_reply_layout (record { status = status_code ok; attr = a })),
        s,
      )
    ]
  ]

  -- The reply by the result of `dereg`, which holds a pointer that is not null where it has a value:
  -- the branch for `AuthErr` is not taken.
  abbrev pub deleted : Option d.Rc × Store ByteBuffer d.Rc → RcReply × Store ByteBuffer d.Rc
  deleted (none, store) = (rc_status wrong_arg, store)
  deleted (some rc, store) = (rc_status ok, store)

  -- the reply of `delete_rc`, with what is left in the registry
  unfoldable pub delete_rc_reply :
      Store ByteBuffer d.Rc → DelRcReq → RcReply × Store ByteBuffer d.Rc
  delete_rc_reply store req = deleted (dereg store (to_string req.name) req.key)

  unfoldable pub delete_rc : Handler (RCtrl d)
  delete_rc s b = elim (dedump del_rc_req_layout b) [
    | none ↦ (some (dump rc_reply_layout (rc_status wrong_arg)), s)
    | some req ↦
        let (reply, store) = delete_rc_reply s.registered_qps req in
        (some (dump rc_reply_layout reply), record s { registered_qps = store })
  ]

  unfoldable pub fetch_qp_attr_reply : RCtrl d → ByteBuffer → ℕ → RcReply
  fetch_qp_attr_reply s name key = elim (query s.registered_qps (to_string name)) [
    | none ↦ rc_status not_found
    | some rc ↦ record { status = status_code ok; attr = d.my_attr rc; key = key }
  ]

  unfoldable pub fetch_qp_attr_wrapper : Handler (RCtrl d)
  fetch_qp_attr_wrapper s b = elim (dedump qp_req_layout b) [
    | none ↦ (some (dump rc_reply_layout (rc_status wrong_arg)), s)
    | some req ↦ (some (dump rc_reply_layout (fetch_qp_attr_reply s req.name 0)), s)
  ]

  unfoldable pub fetch_dc_attr_reply : RCtrl d → ByteBuffer → ℕ → DcReply
  fetch_dc_attr_reply s name key = elim (query s.registered_dcs (to_string name)) [
    | none ↦ dc_status not_found
    | some dc ↦ record { status = status_code ok; attr = d.remote_dct_attr dc; key = key }
  ]

  unfoldable pub fetch_dc_attr_wrapper : Handler (RCtrl d)
  fetch_dc_attr_wrapper s b = elim (dedump qp_req_layout b) [
    | none ↦ (some (dump dc_reply_layout (dc_status wrong_arg)), s)
    | some req ↦ (some (dump dc_reply_layout (fetch_dc_attr_reply s req.name 0)), s)
  ]

  -- Step 1.2: the new queue pair `rc`, registered with `key`, is connected; where that fails it is
  -- taken off again. The first component is the key that step 2 goes on with, `none` for `WA`. An
  -- outer `none` is an exception of `connect`.
  unfoldable pub connect_new :
      RCtrl d → ByteBuffer → d.Rc → ℕ → QpAttr → Option (Option ℕ × RCtrl d)
  connect_new s name rc key attr = d.connect rc attr >>= λ (connected, rc').
      let store = update name rc' s.registered_qps in
      some (
        if is_ok connected
        then (some key, record s { registered_qps = store })
        else (none, record s { registered_qps = (dereg store name key).1 }))

  -- From step 1.1 on: registering draws a key if the name is free.
  unfoldable pub register_new : RCtrl d → ByteBuffer → d.Rc → QpAttr → Option (Option ℕ × RCtrl d)
  register_new s name rc attr =
      let (res, store) = reg s.registered_qps name rc (s.keys s.drawn) in
      elim res [
        | none ↦ some (none, record s { registered_qps = store })
        | some key ↦
            connect_new (record s { registered_qps = store; drawn = s.drawn + 1 }) name rc key attr
      ]

  -- The registries where step 1.1 was made, and `connect` throws: the queue pair is registered.
  abbrev pub registered : RCtrl d → ByteBuffer → d.Rc → RCtrl d
  registered s name rc = record s {
    registered_qps = (reg s.registered_qps name rc (s.keys s.drawn)).1;
    drawn = s.drawn + 1;
  }

  -- Step 1. An outer `none` is the exception of `RC::create(..).value()` or of `connect`.
  unfoldable pub create_qp : RCtrl d → RcReq → Option (Option ℕ × RCtrl d)
  create_qp s req = elim (query s.opened_nics req.nic_id) [
    | none ↦ some (none, s)
    | some nic ↦
        d.create nic req.config none >>= λ rc. register_new s (to_string req.name) rc req.attr
  ]

  -- Step 2.
  abbrev pub reply_created : ByteBuffer → Option ℕ × RCtrl d → RcReply × RCtrl d
  reply_created name (none, s) = (rc_status wrong_arg, s)
  reply_created name (some key, s) = (fetch_qp_attr_reply s name key, s)

  -- The reply to a decoded request. The sanity check, as it is written, lets every value of
  -- `whether_create` pass but 0.
  unfoldable pub rc_reply : RCtrl d → RcReq → Option (RcReply × RCtrl d)
  rc_reply s req =
      if req.whether_create == 0
      then some (rc_status wrong_arg, s)
      else (if req.whether_create == 1
          then (create_qp s req >>= λ r. some (reply_created req.name r))
          else some (fetch_qp_attr_reply s req.name 0, s))

  -- The registries behind an exception of `create_qp`. Nothing is caught, so nothing is taken off again.
  unfoldable pub left_behind : RCtrl d → RcReq → RCtrl d
  left_behind s req = elim (query s.opened_nics req.nic_id) [
    | none ↦ s
    | some nic ↦ elim (d.create nic req.config none) [
      | none ↦ s
      | some rc ↦ registered s (to_string req.name) rc
    ]
  ]

  unfoldable pub rc_handler : Handler (RCtrl d)
  rc_handler s b = elim (dedump rc_req_layout b) [
    | none ↦ (some (dump rc_reply_layout (rc_status wrong_arg)), s)
    | some req ↦ elim (rc_reply s req) [
      | none ↦ (none, left_behind s req)
      | some (reply, s') ↦ (some (dump rc_reply_layout reply), s')
    ]
  ]

  -- the handlers that the constructor registers
  unfoldable pub handlers : Handlers (RCtrl d)
  handlers =
      let hs₁ = (register_handler new_factory fetch_mr fetch_mr_handler).1 in
      let hs₂ = (register_handler hs₁ create_rc rc_handler).1 in
      let hs₃ = (register_handler hs₂ Proto.delete_rc delete_rc).1 in
      let hs₄ = (register_handler hs₃ fetch_qp_attr fetch_qp_attr_wrapper).1 in
      (register_handler hs₄ fetch_dc_attr fetch_dc_attr_wrapper).1
