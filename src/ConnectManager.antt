-- ===== src/ConnectManager.antt =====
-- core/lib.hh: `ConnectManager`, the client of the control path, and `CMFactory`.
--
-- A method takes what the coming receives bring, and for a call whether `sendto` fails: `none`, or
-- the text of `errno`. A method that does not return is `none`: an assertion of `SRpc::call` aborts
-- the process, or the behaviour is undefined. The queue pairs are those of `Devices`.
mod Calls
pub mod Connects
pub mod Exchange
pub mod Fetch
pub mod Create
pub mod Ready
mod Tests
use rlibv.Base.{
  ℕ, zero, suc, ◌+◌, Bool, true, false, Option, none, some, List, [], ◌∷◌, ◌++◌, length, ◌==◌, ltb,
  not, ◌&&◌, ◌||◌, if◌then◌else◌, ◌>>=◌,
}
use rlibv.Base.Text.{codes}
use rlibv.Result.{
  Result, IoCode, timeout, err, is_ok, is_code, make_ok, make_err, make_timeout, make_not_ready,
  transfer,
}
use rlibv.Marshal.{ByteBuffer, dump, dedump}
use rlibv.Config.{QpConfig}
use rlibv.Channel.{Event, raw_send}
use rlibv.Proto.{
  RegAttr, QpAttr, DcAttr, MrReq, QpReq, RcReq, RcReply, DelRcReq, null_reg_attr, null_qp_attr,
  null_dc_attr, null_name, of_string, max_qp_name_len, mr_req_layout, mr_reply_layout,
  qp_req_layout, rc_req_layout, rc_reply_layout, dc_reply_layout, del_rc_req_layout, heart_beat,
  fetch_mr, create_rc, create_rcm, fetch_qp_attr, fetch_dc_attr,
}
use rlibv.Proto
use rlibv.Srpc.Client.{SRpc, Posted, posted, too_large, aborted, call, receive_reply}
use rlibv.RCtrl.{Devices}
unfoldable pub use Calls.*

-- the end of `delete_remote_rc`: every status but these, and every failure, runs off the end of a
-- function that returns a value
unfoldable pub deletion_result : Result ByteBuffer → Option (Result ByteBuffer)
deletion_result reply =
    if is_ok reply
    then (dedump rc_reply_layout reply.desc >>= λ qp_reply.
        if qp_reply.status == 0
        then some (make_ok (codes ""))
        else if qp_reply.status == 3
        then some (make_err (codes "wrong arg"))
        else if qp_reply.status == 5
        then some (make_err (codes "auth failure"))
        else none)
    else none

unfoldable pub delete_remote_rc :
    Option ByteBuffer → SRpc → ByteBuffer → ℕ → List Event → Option (Called (Result ByteBuffer))
delete_remote_rc fails r name key evs =
    if too_long name
    then at_once (make_err err_name_too_long) r evs
    else exchange fails r Proto.delete_rc
        (dump del_rc_req_layout (record { name = of_string name; key = key })) (λ res. res)
        deletion_result evs

-- `fetch_remote_mr` does not look at the result of the call: it receives a reply always.
unfoldable pub mr_result : Result ByteBuffer → Result (ByteBuffer × RegAttr)
mr_result reply =
    if is_ok reply
    then (elim (dedump mr_reply_layout reply.desc) [
      | none ↦ make_err (err_decode_reply, null_reg_attr)
      | some mr_reply ↦
          if mr_reply.status == 0
          then make_ok (codes "", mr_reply.attr)
          else if mr_reply.status == 2
          then make_not_ready (codes "", null_reg_attr)
          else make_err (err_unknown_status, null_reg_attr)
    ])
    else transfer reply (reply.desc, null_reg_attr)

unfoldable pub fetch_remote_mr :
    Option ByteBuffer → SRpc → ℕ → List Event → Option (Called (Result (ByteBuffer × RegAttr)))
fetch_remote_mr fails r id evs =
    call_result fails (call r fetch_mr (dump mr_req_layout (record { id = id }))) >>= λ c.
    (let (reply, r', evs') = receive_reply r false evs in
      some (record { result = mr_result reply; rpc = r'; sent = c.1; left = evs' }))

unfoldable pub qp_attr_result : Result ByteBuffer → Result (ByteBuffer × QpAttr)
qp_attr_result reply =
    if is_ok reply
    then (elim (dedump rc_reply_layout reply.desc) [
      | none ↦ make_err (err_decode_reply, null_qp_attr)
      | some qp_reply ↦
          if qp_reply.status == 0
          then make_ok (codes "", qp_reply.attr)
          else if qp_reply.status == 2
          then make_not_ready (err_not_found, null_qp_attr)
          else make_err (err_unknown_status, null_qp_attr)
    ])
    else transfer reply (reply.desc, null_qp_attr)

-- `QPReq()` is zeros.
abbrev pub qp_req : ByteBuffer → QpReq
qp_req name = record { name = of_string name; key = 0 }

unfoldable pub fetch_remote_qp_attr :
    Option ByteBuffer
    → SRpc
    → ByteBuffer
    → List Event
    → Option (Called (Result (ByteBuffer × QpAttr)))
fetch_remote_qp_attr fails r name evs =
    if too_long name
    then at_once (make_err (err_name_too_long, null_qp_attr)) r evs
    else exchange fails r fetch_qp_attr (dump qp_req_layout (qp_req name))
        (λ res. make_err (res.desc, null_qp_attr)) (λ reply. some (qp_attr_result reply)) evs

unfoldable pub dc_attr_result : Result ByteBuffer → Result (ByteBuffer × DcAttr)
dc_attr_result reply =
    if is_ok reply
    then (elim (dedump dc_reply_layout reply.desc) [
      | none ↦ make_err (err_decode_reply, null_dc_attr)
      | some dc_reply ↦
          if dc_reply.status == 0
          then make_ok (codes "", dc_reply.attr)
          else if dc_reply.status == 2
          then make_not_ready (err_not_found, null_dc_attr)
          else make_err (err_unknown_status, null_dc_attr)
    ])
    else transfer reply (reply.desc, null_dc_attr)

unfoldable pub fetch_remote_dc_attr :
    Option ByteBuffer
    → SRpc
    → ByteBuffer
    → List Event
    → Option (Called (Result (ByteBuffer × DcAttr)))
fetch_remote_dc_attr fails r name evs =
    if too_long name
    then at_once (make_err (err_name_too_long, null_dc_attr)) r evs
    else exchange fails r fetch_dc_attr (dump qp_req_layout (qp_req name))
        (λ res. make_err (res.desc, null_dc_attr)) (λ reply. some (dc_attr_result reply)) evs

-- the request of `cc_rc`; the members that it does not set have their initialisers
unfoldable pub cc_rc_req : ByteBuffer → ℕ → QpConfig → QpAttr → RcReq
cc_rc_req name nic_id config attr = record {
  name = of_string name;
  name_recv = null_name;
  whether_create = 1;
  whether_recv = 0;
  nic_id = nic_id;
  config = config;
  attr = attr;
  max_recv_sz = 4096;
}

-- the request of `cc_rc_msg`, which does not look at the length of `channel_name`
unfoldable pub cc_rc_msg_req : ByteBuffer → ByteBuffer → ℕ → ℕ → QpConfig → QpAttr → RcReq
unfolding cc_rc_req
cc_rc_msg_req name channel_name msg_sz nic_id config attr =
    record (cc_rc_req name nic_id config attr) {
      name_recv = of_string channel_name;
      whether_recv = 1;
      max_recv_sz = msg_sz;
    }

module _ (d : Devices) where
  -- `ErrCase`: the key is 0.
  abbrev pub cc_err : ByteBuffer → d.Rc → Result (ByteBuffer × ℕ) × d.Rc
  cc_err why rc = (make_err (why, 0), rc)

  -- the local queue pair connected to the attributes of the reply
  abbrev pub cc_connected : ℕ → Result ByteBuffer × d.Rc → Result (ByteBuffer × ℕ) × d.Rc
  cc_connected key (ret, rc) =
      if is_ok ret then (make_ok (codes "", key), rc) else cc_err ret.desc rc

  -- An exception of `connect` is caught with those of the decoding.
  abbrev pub cc_caught :
      ℕ → d.Rc → Option (Result ByteBuffer × d.Rc) → Result (ByteBuffer × ℕ) × d.Rc
  cc_caught key rc none = cc_err err_decode_reply rc
  cc_caught key rc (some x) = cc_connected key x

  -- the switch on the status of a decoded reply
  unfoldable pub cc_status : d.Rc → RcReply → Result (ByteBuffer × ℕ) × d.Rc
  cc_status rc qp_reply =
      let connected = cc_caught qp_reply.key rc (d.connect rc qp_reply.attr) in
      if qp_reply.status == 0
      then connected
      else if qp_reply.status == 4
      then cc_err (codes "Remote connect error") rc
      else if qp_reply.status == 3
      then cc_err (codes "Wrong arguments, possible the QP has exsists") rc
      else cc_err err_unknown_status rc

  unfoldable pub cc_result : d.Rc → Result ByteBuffer → Result (ByteBuffer × ℕ) × d.Rc
  cc_result rc reply =
      if is_ok reply
      then (elim (dedump rc_reply_layout reply.desc) [
        | none ↦ cc_err err_decode_reply rc
        | some qp_reply ↦ cc_status rc qp_reply
      ])
      else cc_err (codes "unknown error") rc

  unfoldable pub cc_rc :
      Option ByteBuffer
      → SRpc
      → ByteBuffer
      → d.Rc
      → ℕ
      → QpConfig
      → List Event
      → Option (Called (Result (ByteBuffer × ℕ) × d.Rc))
  cc_rc fails r name rc nic_id config evs =
      if too_long name
      then at_once (cc_err err_name_too_long rc) r evs
      else exchange fails r create_rc
          (dump rc_req_layout (cc_rc_req name nic_id config (d.my_attr rc)))
          (λ res. cc_err res.desc rc) (λ reply. some (cc_result rc reply)) evs

  unfoldable pub cc_rc_msg :
      Option ByteBuffer
      → SRpc
      → ByteBuffer
      → ByteBuffer
      → ℕ
      → d.Rc
      → ℕ
      → QpConfig
      → List Event
      → Option (Called (Result (ByteBuffer × ℕ) × d.Rc))
  cc_rc_msg fails r qp_name channel_name msg_sz rc nic_id config evs =
      if too_long qp_name
      then at_once (cc_err err_name_too_long rc) r evs
      else exchange fails r create_rcm
          (dump rc_req_layout
            (cc_rc_msg_req qp_name channel_name msg_sz nic_id config (d.my_attr rc)))
          (λ res. cc_err res.desc rc) (λ reply. some (cc_result rc reply)) evs

-- `CMFactory::create`: the manager of a server that answered
unfoldable pub create :
    (ℕ → Option ByteBuffer) → SRpc → ℕ → List Event → Option (Called (Result (Option SRpc)))
create fails r retry evs = wait_ready fails r retry evs >>= λ c. some (record {
  result = if is_ok c.result then make_ok (some c.rpc) else transfer c.result none;
  rpc = c.rpc;
  sent = c.sent;
  left = c.left;
})
