-- ===== src/ConnectManager/Create.antt =====
-- Creating and deleting a queue pair from core/lib.hh against the handlers of core/rctrl.hh.
use rlibv.Base.{
  ℕ, ◌≤◌, ◌<◌, ◌≡◌, refl, ap, ◌∙◌, none, some, List, [], ◌∷◌, length, u64_mod, arith, false,
  append-nil, ==_refl, ◌>>=◌,
}
use rlibv.Base.Keys.{nat_eq, string_eq}
use rlibv.Base.Text.{codes}
use rlibv.Result.{Result, make_ok}
use rlibv.Marshal.{ByteBuffer, dump, dedump, sizeof}
use rlibv.Marshal.RoundTrip.{Fits, length-dump}
use rlibv.MultiMsg.{max_msg_sz}
use rlibv.Channel.{Addr, Event, datagram, try_recv}
use rlibv.Config.{QpConfig}
use rlibv.Factory.{find, query, dereg, erase}
use rlibv.Factory.Laws.{dereg_found}
use rlibv.Proto.{
  status_code, ok, wrong_arg, RcReq, RcReply, DelRcReq, QpAttr, rc_req_layout, rc_req_rest,
  rc_req_rest_widths, rc_reply_layout, del_rc_req_layout, create_rc, of_string, to_string,
  max_qp_name_len, name_widths, null_name,
}
use rlibv.Proto
use rlibv.Proto.Wire.{
  dedump-dump_rc_req, dedump-dump_rc_reply, dedump-dump_del_rc_req, IsText, of_string-IsName,
  to_string-of_string,
}
use rlibv.Srpc.Client.{SRpc, call, posted, receive_reply}
use rlibv.Srpc.Server.{serve, replied}
use rlibv.Srpc.Session.{answered}
use rlibv.RCtrl.{
  Devices, RCtrl, handlers, rc_handler, rc_reply, rc_status, delete_rc, delete_rc_reply,
}
use rlibv.RCtrl.Registered.{call_one-handlers}
use rlibv.RCtrl.CreateDelete.{created, rc_reply-created, dereg_head}
use rlibv.ConnectManager.{cc_rc, cc_rc_req, cc_result, cc_status, delete_remote_rc, deletion_result}
use rlibv.ConnectManager.Exchange.{call-Handled, exchange-received, short_name}

pub rc_req_size : sizeof rc_req_layout ≡ 246
unfolding name_widths
rc_req_size = refl

del_req_size : sizeof del_rc_req_layout ≡ 72
unfolding name_widths
del_req_size = refl

rc_handler-replies :
    (d : Devices) (s s' : RCtrl d) (b : ByteBuffer) (req : RcReq) (reply : RcReply)
    → dedump rc_req_layout b ≡ some req
    → rc_reply d s req ≡ some (reply, s')
    → rc_handler d s b ≡ (some (dump rc_reply_layout reply), s')
unfolding rc_handler
rc_handler-replies d s s' b req reply decoded replies = rw (decoded, rc_handler) (rw replies refl)

cc_rc-received :
    (d : Devices) (r r' : SRpc) (name sent : ByteBuffer) (rc : d.Rc) (nic_id : ℕ)
    (config : QpConfig) (evs evs' : List Event) (res : Result ByteBuffer)
    → length name ≤ max_qp_name_len
    → call r create_rc (dump rc_req_layout (cc_rc_req name nic_id config (d.my_attr rc)))
      ≡ posted sent
    → receive_reply r false evs ≡ (res, r', evs')
    → cc_rc d none r name rc nic_id config evs
      ≡ some (record { result = cc_result d rc res; rpc = r'; sent = sent ∷ []; left = evs' })
unfolding cc_rc
cc_rc-received d r r' name sent rc nic_id config evs evs' res short c h =
    rw (short_name name short, cc_rc) (exchange-received r r' create_rc _ sent _ _ evs evs' res c h)

pub cc_result-connected :
    (d : Devices) (rc rc' : d.Rc) (reply : RcReply) (desc : ByteBuffer)
    → Fits rc_reply_layout.widths (rc_reply_layout.fields reply)
    → reply.status ≡ 0
    → d.connect rc reply.attr ≡ some (make_ok desc, rc')
    → cc_result d rc (make_ok (dump rc_reply_layout reply)) ≡ (make_ok (codes "", reply.key), rc')
unfolding cc_result cc_status
cc_result-connected d rc rc' reply desc fits z connected =
    rw (rw append-nil at (dedump-dump_rc_reply reply [] fits), cc_result)
      (rw (z, cc_status) (rw connected refl))

-- What a client asks for with `cc_rc`.
abbrev pub asked : (d : Devices) → ByteBuffer → d.Rc → ℕ → QpConfig → RcReq
asked d name rc nic_id config = cc_rc_req name nic_id config (d.my_attr rc)

asked_back :
    (d : Devices) (name : ByteBuffer) (rc : d.Rc) (nic_id : ℕ) (config : QpConfig)
    → length name ≤ max_qp_name_len
    → IsText name
    → Fits rc_req_rest_widths (rc_req_rest (asked d name rc nic_id config))
    → dedump rc_req_layout (dump rc_req_layout (asked d name rc nic_id config))
      ≡ some (asked d name rc nic_id config)
unfolding cc_rc_req null_name of_string
asked_back d name rc nic_id config short text fits = rw append-nil at (
    dedump-dump_rc_req (asked d name rc nic_id config) [] (of_string-IsName name short text)
      (of_string-IsName [] (omega arith) tt) fits)

delete_rc-found :
    (d : Devices) (s : RCtrl d) (name : ByteBuffer) (rc : d.Rc) (key : ℕ)
    → length name ≤ max_qp_name_len
    → IsText name
    → key < u64_mod
    → find name s.registered_qps ≡ some (rc, key)
    → delete_rc d s (dump del_rc_req_layout (record { name = of_string name; key = key })) ≡ (
      some (dump rc_reply_layout (rc_status ok)),
      record s { registered_qps = erase name s.registered_qps },
    )
unfolding delete_rc delete_rc_reply
delete_rc-found d s name rc key short text small found =
    rw
      (
        rw append-nil at (
            dedump-dump_del_rc_req (record { name = of_string name; key = key }) []
              (of_string-IsName name short text) small),
        delete_rc,
      )
      (simp (
        to_string-of_string name short text,
        dereg_found s.registered_qps name key (rc, key) found,
        ==_refl key,
      ))

delete_remote_rc-received :
    (r r' : SRpc) (name sent : ByteBuffer) (key : ℕ) (evs evs' : List Event)
    (res : Result ByteBuffer)
    → length name ≤ max_qp_name_len
    → call r Proto.delete_rc (dump del_rc_req_layout (record { name = of_string name; key = key }))
      ≡ posted sent
    → receive_reply r false evs ≡ (res, r', evs')
    → delete_remote_rc none r name key evs ≡ (
        deletion_result res >>= λ a.
        some (record { result = a; rpc = r'; sent = sent ∷ []; left = evs' }))
unfolding delete_remote_rc
delete_remote_rc-received r r' name sent key evs evs' res short c h =
    rw (short_name name short, delete_remote_rc)
      (exchange-received r r' Proto.delete_rc _ sent _ _ evs evs' res c h)

deletion_result-ok :
    deletion_result (make_ok (dump rc_reply_layout (rc_status ok))) ≡ some (make_ok (codes ""))
unfolding deletion_result
deletion_result-ok =
    rw (rw append-nil at (dedump-dump_rc_reply (rc_status ok) [] (omega arith)), deletion_result)
      refl

module _ (d : Devices) (s : RCtrl d) (r : SRpc) (old : ByteBuffer) (from : Addr) (evs : List Event)
    (in_range : r.checksum < u64_mod) (full_size : length old ≡ max_msg_sz) where
  -- A client with the queue pair `mine` asks a server for one under a name of at most 63 bytes,
  -- none of them 0, that is free there, on a NIC that is opened there; the values that are sent
  -- fit their fields, the checksum is 64 bits wide, the server's buffer has 4096 bytes, and
  -- creating and both connections succeed. The server creates `theirs`, connects it to the
  -- attributes of `mine`, and registers it. The client that receives the reply next connects
  -- `mine` to the attributes of `theirs` and returns the key, with which the entry is taken off
  -- the server's registry again.
  pub cc_rc-created :
      (name : ByteBuffer) (mine mine' theirs theirs' : d.Rc) (nic : d.Nic) (nic_id : ℕ)
      (config : QpConfig) (desc desc' : ByteBuffer)
      → length name ≤ max_qp_name_len
      → IsText name
      → Fits rc_req_rest_widths (rc_req_rest (asked d name mine nic_id config))
      → query s.opened_nics nic_id ≡ some nic
      → d.create nic config none ≡ some theirs
      → find name s.registered_qps ≡ none
      → d.connect theirs (d.my_attr mine) ≡ some (make_ok desc, theirs')
      → Fits rc_reply_layout.widths (
          rc_reply_layout.fields
            (record { status = status_code ok; attr = d.my_attr theirs'; key = s.keys s.drawn }))
      → d.connect mine (d.my_attr theirs') ≡ some (make_ok desc', mine')
      → (sent : ByteBuffer) × (back : ByteBuffer) × (serve
            (handlers d)
            s
            (try_recv old (datagram 0 sent)).1
          ≡ replied back (created d s name theirs'))
        × (cc_rc d none r name mine nic_id config (datagram from back ∷ evs)
            ≡ some (record {
              result = (make_ok (codes "", s.keys s.drawn), mine');
              rpc = answered r;
              sent = sent ∷ [];
              left = evs;
            }))
        × (dereg (created d s name theirs').registered_qps name (s.keys s.drawn)
            ≡ (some theirs', s.registered_qps))
  unfolding cc_rc_req
  cc_rc-created name mine mine' theirs theirs' nic nic_id config desc desc' short text fits opened
        made free connected reply_fits connected' =
      let req = asked d name mine nic_id config in
      let reply : RcReply = record {
        status = status_code ok;
        attr = d.my_attr theirs';
        key = s.keys s.drawn;
      } in
      let back_name : to_string (of_string name) ≡ name = to_string-of_string name short text in
      let created_reply : rc_reply d s req ≡ some (reply, created d s name theirs') =
        rc_reply-created d s req nic theirs theirs' desc refl opened made (rw back_name free)
          connected
        ∙ ap (λ n. some (reply, created d s n theirs')) back_name in
      let h =
        call-Handled (handlers d) s (created d s name theirs') (rc_handler d) r create_rc
          (dump rc_req_layout req) (dump rc_reply_layout reply) old from evs
          (omega (arith, length-dump rc_req_layout req, rc_req_size)) (omega arith)
          (λ e. omega arith) in_range full_size (call_one-handlers d).2
          (rc_handler-replies d s (created d s name theirs') _ req reply
            (asked_back d name mine nic_id config short text fits) created_reply)
          (omega (arith, length-dump rc_reply_layout reply)) in
      (
        h.sent,
        h.back,
        h.served,
        cc_rc-received d r (answered r) name h.sent mine nic_id config _ evs _ short h.called
              h.received
            ∙ rw (cc_result-connected d mine mine' reply desc' reply_fits refl connected') refl,
        dereg_head name theirs' (s.keys s.drawn) s.registered_qps,
      )

  -- A client that deletes a registered queue pair, by a name of at most 63 bytes, none of them 0,
  -- and with the 64-bit key under which it is registered, gets `Ok` from the reply that it
  -- receives next, and the server's registry is the old one without this entry. The checksum is 64
  -- bits wide, and the server's buffer has 4096 bytes.
  pub delete_remote_rc-found :
      (name : ByteBuffer) (rc : d.Rc) (key : ℕ)
      → length name ≤ max_qp_name_len
      → IsText name
      → key < u64_mod
      → find name s.registered_qps ≡ some (rc, key)
      → (sent : ByteBuffer) × (back : ByteBuffer) × (serve
            (handlers d)
            s
            (try_recv old (datagram 0 sent)).1
          ≡ replied back (record s { registered_qps = erase name s.registered_qps }))
        × (delete_remote_rc none r name key (datagram from back ∷ evs)
            ≡ some (record {
              result = make_ok (codes "");
              rpc = answered r;
              sent = sent ∷ [];
              left = evs;
            }))
  delete_remote_rc-found name rc key short text small found =
      let req : DelRcReq = record { name = of_string name; key = key } in
      let h =
        call-Handled (handlers d) s (record s { registered_qps = erase name s.registered_qps })
          (delete_rc d) r Proto.delete_rc (dump del_rc_req_layout req)
          (dump rc_reply_layout (rc_status ok)) old from evs
          (omega (arith, length-dump del_rc_req_layout req, del_req_size)) (omega arith)
          (λ e. omega arith) in_range full_size (call_one-handlers d).3
          (delete_rc-found d s name rc key short text small found)
          (omega (arith, length-dump rc_reply_layout (rc_status ok))) in
      (
        h.sent,
        h.back,
        h.served,
        delete_remote_rc-received r (answered r) name h.sent key _ evs _ short h.called h.received
            ∙ rw deletion_result-ok refl,
      )
