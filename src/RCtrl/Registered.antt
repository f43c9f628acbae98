-- ===== src/RCtrl/Registered.antt =====
-- Which handler of core/rctrl.hh serves which request, and what the handlers that only look
-- something up reply.
use rlibv.Base.{ℕ, ◌≡◌, refl, none, some}
use rlibv.Base.Keys.{nat_eq, string_eq}
use rlibv.Marshal.{ByteBuffer, dump, dedump}
use rlibv.Factory.{query}
use rlibv.Proto.{
  ok, not_found, status_code, to_string, RegAttr, mr_req_layout, mr_reply_layout, MrReq, heart_beat,
  fetch_mr, create_rc, fetch_qp_attr, fetch_dc_attr,
}
use rlibv.Proto
use rlibv.Srpc.Server.{find, call_one, heartbeat_handler, register_handler, new_factory}
use rlibv.RCtrl.{
  Devices, RCtrl, handlers, fetch_mr_handler, rc_handler, delete_rc, fetch_qp_attr_wrapper,
  fetch_dc_attr_wrapper, fetch_qp_attr_reply, rc_status, mr_status,
}

module _ (d : Devices) where
  -- Each request of the control path reaches its handler; only the id for `CreateRCM` has none.
  pub call_one-handlers :
      (call_one (handlers d) heart_beat ≡ some heartbeat_handler)
      × (call_one (handlers d) fetch_mr ≡ some (fetch_mr_handler d))
      × (call_one (handlers d) create_rc ≡ some (rc_handler d))
      × (call_one (handlers d) Proto.delete_rc ≡ some (delete_rc d))
      × (call_one (handlers d) fetch_qp_attr ≡ some (fetch_qp_attr_wrapper d))
      × (call_one (handlers d) fetch_dc_attr ≡ some (fetch_dc_attr_wrapper d))
      × (call_one (handlers d) Proto.create_rcm ≡ none)
  unfolding call_one handlers register_handler new_factory find
  call_one-handlers = (refl, refl, refl, refl, refl, refl, refl)

  -- A decoded request for a registered region is answered with the region's attributes.
  pub fetch_mr_handler-found :
      (s : RCtrl d) (b : ByteBuffer) (req : MrReq) (mr : d.Mr) (a : RegAttr)
      → dedump mr_req_layout b ≡ some req
      → query s.registered_mrs req.id ≡ some mr
      → d.get_reg_attr mr ≡ some a
      → fetch_mr_handler d s b
        ≡ (some (dump mr_reply_layout (record { status = status_code ok; attr = a })), s)
  unfolding fetch_mr_handler
  fetch_mr_handler-found s b req mr a decoded found valid =
      rw (decoded, fetch_mr_handler) (rw (found) (rw (valid) refl))

  pub fetch_mr_handler-missing :
      (s : RCtrl d) (b : ByteBuffer) (req : MrReq)
      → dedump mr_req_layout b ≡ some req
      → query s.registered_mrs req.id ≡ none
      → fetch_mr_handler d s b ≡ (some (dump mr_reply_layout (mr_status not_found)), s)
  unfolding fetch_mr_handler
  fetch_mr_handler-missing s b req decoded missing =
      rw (decoded, fetch_mr_handler) (rw missing refl)

  pub fetch_qp_attr_reply-found :
      (s : RCtrl d) (name : ByteBuffer) (key : ℕ) (rc : d.Rc)
      → query s.registered_qps (to_string name) ≡ some rc
      → fetch_qp_attr_reply d s name key
        ≡ record { status = status_code ok; attr = d.my_attr rc; key = key }
  unfolding fetch_qp_attr_reply
  fetch_qp_attr_reply-found s name key rc found = rw (found, fetch_qp_attr_reply)

  fetch_qp_attr_reply-missing :
      (s : RCtrl d) (name : ByteBuffer) (key : ℕ)
      → query s.registered_qps (to_string name) ≡ none
      → fetch_qp_attr_reply d s name key ≡ rc_status not_found
  unfolding fetch_qp_attr_reply
  fetch_qp_attr_reply-missing s name key missing = rw (missing, fetch_qp_attr_reply)
