-- ===== src/RecvManager/Session.antt =====
-- `cc_rc_msg` of core/lib.hh against core/rctrl.hh with the handler of core/qps/rc_recv_manager.hh.
use rlibv.Base.{
  ℕ, ◌%◌, ◌^◌, ◌≤◌, ◌<◌, ◌≡◌, refl, ap, ◌∙◌, none, some, List, [], ◌∷◌, length, u32_mod, u64_mod,
  arith, append-nil, false,
}
use rlibv.Base.Keys.{nat_eq, string_eq}
use rlibv.Base.Text.{codes}
use rlibv.Result.{Result, make_ok}
use rlibv.Marshal.{ByteBuffer, dump, dedump}
use rlibv.Marshal.RoundTrip.{Fits, length-dump}
use rlibv.MultiMsg.{max_msg_sz}
use rlibv.Channel.{Addr, Event, datagram, try_recv}
use rlibv.Config.{QpConfig}
use rlibv.Factory.{find, query}
use rlibv.Proto.{
  RcReq, RcReply, rc_req_layout, rc_req_rest, rc_req_rest_widths, rc_reply_layout, create_rcm,
  of_string, to_string, max_qp_name_len,
}
use rlibv.Proto.Wire.{dedump-dump_rc_req, IsText, of_string-IsName, to_string-of_string}
use rlibv.Srpc.Client.{SRpc, call, posted, receive_reply}
use rlibv.Srpc.Server.{Handlers, Handler, call_one, register_handler, new_factory, serve, replied}
use rlibv.Srpc.Server
use rlibv.Srpc.Session.{answered}
use rlibv.RCtrl.{Devices, handlers}
use rlibv.ConnectManager.{cc_rc_msg, cc_rc_msg_req, cc_rc_req, cc_result}
use rlibv.ConnectManager.Exchange.{call-Handled, exchange-received, short_name}
use rlibv.ConnectManager.Create.{cc_result-connected, rc_req_size}
use rlibv.Qps.WrChain.{places}
use rlibv.Qps.RecvEntries.{RecvEntries, Allocator, create}
use rlibv.Qps.RecvEntries.Ring.{IsRing, place}
use rlibv.RecvManager.{
  RecvCommon, Managed, Outcome, msg_rc_reply, msg_rc_handler, managed_handlers, reply_of, lift_all,
}
use rlibv.RecvManager
use rlibv.RecvManager.Created.{msg_created, created_reply, msg_rc_reply-created}

module _ (d : Devices) {A : Type 0} (alloc_one : ℕ → Allocator A) (depth : ℕ) where
  -- The manager's constructor adds its handler under the id that `RCtrl` leaves free.
  call_one-managed_handlers :
      call_one (managed_handlers d alloc_one depth) create_rcm
      ≡ some (msg_rc_handler d alloc_one depth)
  unfolding call_one managed_handlers handlers register_handler new_factory Server.find
  call_one-managed_handlers = refl

  msg_rc_handler-replies :
      (m m' : Managed d A) (b : ByteBuffer) (req : RcReq) (reply : RcReply)
      → dedump rc_req_layout b ≡ some req
      → msg_rc_reply d alloc_one depth m req ≡ RecvManager.replied reply m'
      → msg_rc_handler d alloc_one depth (some m) b ≡ (some (dump rc_reply_layout reply), some m')
  unfolding msg_rc_handler
  msg_rc_handler-replies m m' b req reply decoded replies =
      rw (decoded, msg_rc_handler) (ap (reply_of d alloc_one depth) replies)

-- What a client asks for with `cc_rc_msg`.
abbrev pub asked_msg : (d : Devices) → ByteBuffer → ByteBuffer → ℕ → d.Rc → ℕ → QpConfig → RcReq
asked_msg d name channel msg_sz rc nic_id config =
    cc_rc_msg_req name channel msg_sz nic_id config (d.my_attr rc)

asked_msg_back :
    (d : Devices) (name channel : ByteBuffer) (msg_sz : ℕ) (rc : d.Rc) (nic_id : ℕ)
    (config : QpConfig)
    → length name ≤ max_qp_name_len
    → IsText name
    → length channel ≤ max_qp_name_len
    → IsText channel
    → Fits rc_req_rest_widths (rc_req_rest (asked_msg d name channel msg_sz rc nic_id config))
    → dedump rc_req_layout (dump rc_req_layout (asked_msg d name channel msg_sz rc nic_id config))
      ≡ some (asked_msg d name channel msg_sz rc nic_id config)
unfolding cc_rc_msg_req cc_rc_req
asked_msg_back d name channel msg_sz rc nic_id config short text short' text' fits =
    rw append-nil at (
      dedump-dump_rc_req (asked_msg d name channel msg_sz rc nic_id config) []
        (of_string-IsName name short text) (of_string-IsName channel short' text') fits)

cc_rc_msg-received :
    (d : Devices) (r r' : SRpc) (name channel sent : ByteBuffer) (msg_sz : ℕ) (rc : d.Rc)
    (nic_id : ℕ) (config : QpConfig) (evs evs' : List Event) (res : Result ByteBuffer)
    → length name ≤ max_qp_name_len
    → call r create_rcm (dump rc_req_layout (asked_msg d name channel msg_sz rc nic_id config))
      ≡ posted sent
    → receive_reply r false evs ≡ (res, r', evs')
    → cc_rc_msg d none r name channel msg_sz rc nic_id config evs
      ≡ some (record { result = cc_result d rc res; rpc = r'; sent = sent ∷ []; left = evs' })
unfolding cc_rc_msg
cc_rc_msg-received d r r' name channel sent msg_sz rc nic_id config evs evs' res short c h =
    rw (short_name name short, cc_rc_msg)
      (exchange-received r r' create_rcm _ sent _ _ evs evs' res c h)

module _ (d : Devices) {A : Type 0} (alloc_one : ℕ → Allocator A) (depth : ℕ) (m : Managed d A)
    (r : SRpc) (old : ByteBuffer) (from : Addr) (evs : List Event) (in_range : r.checksum < u64_mod)
    (full_size : length old ≡ max_msg_sz) where
  -- A client with the queue pair `mine` asks a server with a `RecvManager` for one that receives messages
  -- of `msg_sz` bytes. Both names have at most 63 bytes, none of them 0; the queue pair's is free there, for
  -- the queue pair and for its entries, and the channel's is registered; the NIC is opened; the values that
  -- are sent fit their fields, the checksum is 64 bits wide, the server's buffer has 4096 bytes; the
  -- creation, both connections, the allocation and the posting succeed. The server then has `theirs`
  -- registered, connected to `mine` and with a whole ring of posted entries under its name; the client that
  -- receives the reply next connects `mine` to the attributes of `theirs` and returns the key.
  pub cc_rc_msg-created :
      (name channel : ByteBuffer) (msg_sz : ℕ) (mine mine' theirs theirs' theirs'' : d.Rc)
      (nic : d.Nic) (nic_id : ℕ) (config : QpConfig) (desc desc' : ByteBuffer) (c : RecvCommon d)
      (entries : RecvEntries) (allocs : A)
      → length name ≤ max_qp_name_len
      → IsText name
      → length channel ≤ max_qp_name_len
      → IsText channel
      → Fits rc_req_rest_widths (rc_req_rest (asked_msg d name channel msg_sz mine nic_id config))
      → query m.ctrl.opened_nics nic_id ≡ some nic
      → query m.reg_recv_cqs channel ≡ some c
      → d.create nic config (some c.cq) ≡ some theirs
      → find name m.ctrl.registered_qps ≡ none
      → d.connect theirs (d.my_attr mine) ≡ some (make_ok desc, theirs')
      → create (alloc_one c.allocator) depth m.allocs (msg_sz % u32_mod) ≡ some (entries, allocs)
      → find name m.reg_recv_entries ≡ none
      → 0 < depth
      → depth < 2 ^ 31
      → d.post_recv theirs' (places (place depth entries.header) depth) ≡ (none, theirs'')
      → Fits rc_reply_layout.widths
          (rc_reply_layout.fields (created_reply d alloc_one depth m theirs''))
      → d.connect mine (d.my_attr theirs'') ≡ some (make_ok desc', mine')
      → (sent : ByteBuffer) × (back : ByteBuffer) × (serve
            (managed_handlers d alloc_one depth)
            (some m)
            (try_recv old (datagram 0 sent)).1
          ≡ replied back (some (msg_created d alloc_one depth m name theirs'' entries allocs)))
        × (cc_rc_msg d none r name channel msg_sz mine nic_id config (datagram from back ∷ evs)
            ≡ some (record {
              result = (make_ok (codes "", m.ctrl.keys m.ctrl.drawn), mine');
              rpc = answered r;
              sent = sent ∷ [];
              left = evs;
            }))
        × IsRing depth entries
  unfolding cc_rc_msg_req cc_rc_req
  cc_rc_msg-created name channel msg_sz mine mine' theirs theirs' theirs'' nic nic_id config desc
        desc' c entries allocs short text short' text' fits opened queue made free connected
        allocated free' pos small accepted reply_fits connected' =
      let req = asked_msg d name channel msg_sz mine nic_id config in
      let reply = created_reply d alloc_one depth m theirs'' in
      let back_name : to_string (of_string name) ≡ name = to_string-of_string name short text in
      let served =
        msg_rc_reply-created d alloc_one depth m req nic theirs theirs' theirs'' desc c entries
          allocs refl refl opened (rw (to_string-of_string channel short' text') queue) made
          (rw back_name free) connected allocated (rw back_name free') pos small accepted in
      let h =
        call-Handled (managed_handlers d alloc_one depth) (some m)
          (some (msg_created d alloc_one depth m name theirs'' entries allocs))
          (msg_rc_handler d alloc_one depth) r create_rcm (dump rc_req_layout req)
          (dump rc_reply_layout reply) old from evs
          (omega (arith, length-dump rc_req_layout req, rc_req_size)) (omega arith)
          (λ e. omega arith) in_range full_size (call_one-managed_handlers d alloc_one depth)
          (msg_rc_handler-replies d alloc_one depth m _ _ req reply
            (asked_msg_back d name channel msg_sz mine nic_id config short text short' text' fits)
            (served.0
              ∙ ap
                  (λ n.
                    RecvManager.replied reply
                      (msg_created d alloc_one depth m n theirs'' entries allocs))
                  back_name))
          (omega (arith, length-dump rc_reply_layout reply)) in
      (
        h.sent,
        h.back,
        h.served,
        cc_rc_msg-received d r (answered r) name channel h.sent msg_sz mine nic_id config _ evs _
              short h.called h.received
            ∙ rw (cc_result-connected d mine mine' reply desc' reply_fits refl connected') refl,
        served.1,
      )
