-- ===== src/ConnectManager/Fetch.antt =====
-- Fetching from core/lib.hh against the handlers of core/rctrl.hh.
use rlibv.Base.{
  ℕ, ◌≤◌, ◌<◌, ◌≡◌, refl, ap, ◌∙◌, none, some, List, [], ◌∷◌, length, u64_mod, arith, false,
  append-nil,
}
use rlibv.Base.Keys.{nat_eq, string_eq}
use rlibv.Base.Text.{codes}
use rlibv.Result.{Result, make_ok, make_not_ready}
use rlibv.Marshal.{ByteBuffer, dump, dedump, sizeof}
use rlibv.Marshal.RoundTrip.{Fits, length-dump}
use rlibv.MultiMsg.{max_msg_sz}
use rlibv.Channel.{Addr, Event, datagram, try_recv, raw_send}
use rlibv.Factory.{query}
use rlibv.Proto.{
  status_code, ok, not_found, RegAttr, QpAttr, null_reg_attr, mr_req_layout, mr_reply_layout,
  rc_reply_layout, qp_req_layout, fetch_mr, fetch_qp_attr, of_string, max_qp_name_len, name_widths,
}
use rlibv.Proto.Wire.{
  dedump-dump_mr_req, dedump-dump_mr_reply, dedump-dump_rc_reply, dedump-dump_qp_req, IsText,
  of_string-IsName, to_string-of_string,
}
use rlibv.Srpc.Client.{SRpc, call, posted, receive_reply}
use rlibv.Srpc.Server.{serve, replied}
use rlibv.Srpc.Session.{answered}
use rlibv.RCtrl.{Devices, RCtrl, handlers, fetch_mr_handler, fetch_qp_attr_wrapper, mr_status}
use rlibv.RCtrl.Registered.{
  call_one-handlers, fetch_mr_handler-found, fetch_mr_handler-missing, fetch_qp_attr_reply-found,
}
use rlibv.ConnectManager.{
  call_result, fetch_remote_mr, mr_result, fetch_remote_qp_attr, qp_attr_result, qp_req,
}
use rlibv.ConnectManager.Exchange.{call-Handled, exchange-received, short_name}

fetch_remote_mr-received :
    (r r' : SRpc) (id : ℕ) (sent : ByteBuffer) (evs evs' : List Event) (res : Result ByteBuffer)
    → call r fetch_mr (dump mr_req_layout (record { id = id })) ≡ posted sent
    → receive_reply r false evs ≡ (res, r', evs')
    → fetch_remote_mr none r id evs
      ≡ some (record { result = mr_result res; rpc = r'; sent = sent ∷ []; left = evs' })
unfolding fetch_remote_mr call_result raw_send
fetch_remote_mr-received r r' id sent evs evs' res c h = rw (c, fetch_remote_mr) (rw h refl)

mr_request_back :
    (id : ℕ)
    → id < u64_mod
    → dedump mr_req_layout (dump mr_req_layout (record { id = id })) ≡ some (record { id = id })
mr_request_back id h = rw append-nil at (dedump-dump_mr_req (record { id = id }) [] (h, tt))

mr_result-found :
    (a : RegAttr)
    → Fits mr_reply_layout.widths
        (mr_reply_layout.fields (record { status = status_code ok; attr = a }))
    → mr_result (make_ok (dump mr_reply_layout (record { status = status_code ok; attr = a })))
      ≡ make_ok (codes "", a)
unfolding mr_result
mr_result-found a h =
    rw
      (
        rw append-nil at (dedump-dump_mr_reply (record { status = status_code ok; attr = a }) [] h),
        mr_result,
      )
      refl

mr_result-missing :
    mr_result (make_ok (dump mr_reply_layout (mr_status not_found)))
    ≡ make_not_ready (codes "", null_reg_attr)
unfolding mr_result
mr_result-missing =
    rw (rw append-nil at (dedump-dump_mr_reply (mr_status not_found) [] (omega arith)), mr_result)
      refl

widths_sum : sizeof qp_req_layout ≡ 72
unfolding name_widths
widths_sum = refl

qp_request_back :
    (name : ByteBuffer)
    → length name ≤ max_qp_name_len
    → IsText name
    → dedump qp_req_layout (dump qp_req_layout (qp_req name)) ≡ some (qp_req name)
qp_request_back name short text =
    rw append-nil at
      (dedump-dump_qp_req (qp_req name) [] (of_string-IsName name short text) (omega arith))

fetch_qp_attr_wrapper-found :
    (d : Devices) (s : RCtrl d) (name : ByteBuffer) (rc : d.Rc)
    → length name ≤ max_qp_name_len
    → IsText name
    → query s.registered_qps name ≡ some rc
    → fetch_qp_attr_wrapper d s (dump qp_req_layout (qp_req name)) ≡ (
      some
          (dump rc_reply_layout (record { status = status_code ok; attr = d.my_attr rc; key = 0 })),
      s,
    )
unfolding fetch_qp_attr_wrapper
fetch_qp_attr_wrapper-found d s name rc short text found =
    rw
      (
        qp_request_back name short text,
        fetch_qp_attr_wrapper,
        fetch_qp_attr_reply-found d s (of_string name) 0 rc
            (ap (query s.registered_qps) (to_string-of_string name short text) ∙ found),
      )
      refl

fetch_remote_qp_attr-received :
    (r r' : SRpc) (name sent : ByteBuffer) (evs evs' : List Event) (res : Result ByteBuffer)
    → length name ≤ max_qp_name_len
    → call r fetch_qp_attr (dump qp_req_layout (qp_req name)) ≡ posted sent
    → receive_reply r false evs ≡ (res, r', evs')
    → fetch_remote_qp_attr none r name evs
      ≡ some (record { result = qp_attr_result res; rpc = r'; sent = sent ∷ []; left = evs' })
unfolding fetch_remote_qp_attr
fetch_remote_qp_attr-received r r' name sent evs evs' res short c h =
    rw (short_name name short, fetch_remote_qp_attr)
      (exchange-received r r' fetch_qp_attr _ sent _ _ evs evs' res c h)

qp_attr_result-found :
    (a : QpAttr)
    → Fits rc_reply_layout.widths
        (rc_reply_layout.fields (record { status = status_code ok; attr = a; key = 0 }))
    → qp_attr_result
        (make_ok (dump rc_reply_layout (record { status = status_code ok; attr = a; key = 0 })))
      ≡ make_ok (codes "", a)
unfolding qp_attr_result
qp_attr_result-found a h =
    rw
      (
        rw append-nil at
            (dedump-dump_rc_reply (record { status = status_code ok; attr = a; key = 0 }) [] h),
        qp_attr_result,
      )
      refl

module _ (d : Devices) (s : RCtrl d) (r : SRpc) (old : ByteBuffer) (from : Addr) (evs : List Event)
    (in_range : r.checksum < u64_mod) (full_size : length old ≡ max_msg_sz) where
  -- A client that asks a server for a registered memory region, by a 64-bit id, gets the
  -- attributes that are registered there from the reply that it receives next, where their values
  -- fit the fields of the reply; the server's state stays as it was. The checksum is 64 bits wide,
  -- and the server's buffer has 4096 bytes.
  pub fetch_remote_mr-found :
      (id : ℕ) (mr : d.Mr) (a : RegAttr)
      → id < u64_mod
      → query s.registered_mrs id ≡ some mr
      → d.get_reg_attr mr ≡ some a
      → Fits mr_reply_layout.widths
          (mr_reply_layout.fields (record { status = status_code ok; attr = a }))
      → (sent : ByteBuffer) × (back : ByteBuffer) × (serve
            (handlers d)
            s
            (try_recv old (datagram 0 sent)).1
          ≡ replied back s)
        × (fetch_remote_mr none r id (datagram from back ∷ evs)
            ≡ some (record {
              result = make_ok (codes "", a);
              rpc = answered r;
              sent = sent ∷ [];
              left = evs;
            }))
  fetch_remote_mr-found id mr a small found valid fits =
      let h =
        call-Handled (handlers d) s s (fetch_mr_handler d) r fetch_mr
          (dump mr_req_layout (record { id = id }))
          (dump mr_reply_layout (record { status = status_code ok; attr = a })) old from evs
          (omega (arith, length-dump mr_req_layout (record { id = id }))) (omega arith)
          (λ e. omega arith) in_range full_size (call_one-handlers d).1
          (fetch_mr_handler-found d s _ (record { id = id }) mr a (mr_request_back id small) found
            valid)
          (omega
            (arith, length-dump mr_reply_layout (record { status = status_code ok; attr = a }))) in
      (
        h.sent,
        h.back,
        h.served,
        fetch_remote_mr-received r (answered r) id h.sent _ evs _ h.called h.received
            ∙ rw (mr_result-found a fits) refl,
      )

  -- Where no region is registered under the 64-bit id, the client gets `NotReady` from the reply
  -- that it receives next, and the server's state stays as it was. The checksum is 64 bits wide,
  -- and the server's buffer has 4096 bytes.
  fetch_remote_mr-missing :
      (id : ℕ)
      → id < u64_mod
      → query s.registered_mrs id ≡ none
      → (sent : ByteBuffer) × (back : ByteBuffer) × (serve
            (handlers d)
            s
            (try_recv old (datagram 0 sent)).1
          ≡ replied back s)
        × (fetch_remote_mr none r id (datagram from back ∷ evs)
            ≡ some (record {
              result = make_not_ready (codes "", null_reg_attr);
              rpc = answered r;
              sent = sent ∷ [];
              left = evs;
            }))
  fetch_remote_mr-missing id small missing =
      let h =
        call-Handled (handlers d) s s (fetch_mr_handler d) r fetch_mr
          (dump mr_req_layout (record { id = id })) (dump mr_reply_layout (mr_status not_found)) old
          from evs (omega (arith, length-dump mr_req_layout (record { id = id }))) (omega arith)
          (λ e. omega arith) in_range full_size (call_one-handlers d).1
          (fetch_mr_handler-missing d s _ (record { id = id }) (mr_request_back id small) missing)
          (omega (arith, length-dump mr_reply_layout (mr_status not_found))) in
      (
        h.sent,
        h.back,
        h.served,
        fetch_remote_mr-received r (answered r) id h.sent _ evs _ h.called h.received
            ∙ rw mr_result-missing refl,
      )

  -- A client that asks for a registered queue pair, by a name of at most 63 bytes, none of them 0,
  -- gets its attributes from the reply that it receives next, where their values fit the fields of
  -- the reply; the server's state stays as it was. The checksum is 64 bits wide, and the server's
  -- buffer has 4096 bytes.
  fetch_remote_qp_attr-found :
      (name : ByteBuffer) (rc : d.Rc)
      → length name ≤ max_qp_name_len
      → IsText name
      → query s.registered_qps name ≡ some rc
      → Fits rc_reply_layout.widths (
          rc_reply_layout.fields (record { status = status_code ok; attr = d.my_attr rc; key = 0 }))
      → (sent : ByteBuffer) × (back : ByteBuffer) × (serve
            (handlers d)
            s
            (try_recv old (datagram 0 sent)).1
          ≡ replied back s)
        × (fetch_remote_qp_attr none r name (datagram from back ∷ evs)
            ≡ some (record {
              result = make_ok (codes "", d.my_attr rc);
              rpc = answered r;
              sent = sent ∷ [];
              left = evs;
            }))
  fetch_remote_qp_attr-found name rc short text found fits =
      let h =
        call-Handled (handlers d) s s (fetch_qp_attr_wrapper d) r fetch_qp_attr
          (dump qp_req_layout (qp_req name))
          (dump rc_reply_layout (record { status = status_code ok; attr = d.my_attr rc; key = 0 }))
          old from evs (omega (arith, length-dump qp_req_layout (qp_req name), widths_sum))
          (omega arith) (λ e. omega arith) in_range full_size (call_one-handlers d).4
          (fetch_qp_attr_wrapper-found d s name rc short text found)
          (omega (
            arith,
            length-dump rc_reply_layout
                (record { status = status_code ok; attr = d.my_attr rc; key = 0 }),
          )) in
      (
        h.sent,
        h.back,
        h.served,
        fetch_remote_qp_attr-received r (answered r) name h.sent _ evs _ short h.called h.received
            ∙ rw (qp_attr_result-found (d.my_attr rc) fits) refl,
      )
