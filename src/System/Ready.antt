-- ===== src/System/Ready.antt =====
-- Both ends of a connection that core/lib.hh makes, with queue pairs of core/qps/rc.hh.
use rlibv.Base.{
  refl, true, ℕ, ◌≤◌, ◌<◌, ◌≡◌, ◌∙◌, none, some, List, [], ◌∷◌, inl, inr, length, u64_mod,
  false≢true, sym,
}
use rlibv.Base.Keys.{nat_eq, string_eq}
use rlibv.Base.Text.{codes}
use rlibv.Result.{Result, make_ok, is_ok}
use rlibv.Marshal.{ByteBuffer}
use rlibv.Marshal.RoundTrip.{Fits}
use rlibv.MultiMsg.{max_msg_sz}
use rlibv.Channel.{Addr, Event, datagram, try_recv}
use rlibv.Config.{QpConfig}
use rlibv.Factory.{find, query}
use rlibv.Proto.{
  QpAttr, status_code, ok, rc_req_rest, rc_req_rest_widths, rc_reply_layout, max_qp_name_len,
}
use rlibv.Proto.Wire.{IsText}
use rlibv.Srpc.Client.{SRpc}
use rlibv.Srpc.Server.{serve, replied}
use rlibv.Srpc.Session.{answered}
use rlibv.Verbs.{Verbs, Documented}
use rlibv.Nic.{RNic}
use rlibv.RCtrl.{RCtrl, handlers}
use rlibv.RCtrl.CreateDelete.{created, find_head}
use rlibv.ConnectManager.{cc_rc}
use rlibv.ConnectManager.Create.{asked, cc_rc-created}
use rlibv.Qps.RcQp.{RcQp}
use rlibv.Qps.RcQp.Connect.{Rts, connect-Ended}
use rlibv.System.{devices}

module _ (v : Verbs) (doc : Documented v) where
  -- a connection by the interface that succeeds
  pub connected-Rts :
      (q q' : RcQp v) (attr : QpAttr) (res : Result ByteBuffer)
      → (devices v).connect q attr ≡ some (res, q')
      → is_ok res ≡ true
      → Rts v q'
  connected-Rts q q' attr res e good = elim (connect-Ended v doc q q' attr res e) [
    | inl (_, rts) ↦ rts
    | inr (bad, kept) ↦ absurd (false≢true (sym bad ∙ good))
  ]

  -- The verbs library does what is documented of it. A client with the queue pair `mine` asks a server for
  -- one under a name of at most 63 bytes, none of them 0, that is free there, on a NIC that is opened there;
  -- the values that are sent fit their fields, the checksum is 64 bits wide, the server's buffer has 4096
  -- bytes, and creating and both connections succeed. The server then has `theirs'` registered under the
  -- name, with the key that the client returns, and both queue pairs are valid and ready to send.
  pub cc_rc-ready :
      (s : RCtrl (devices v)) (r : SRpc) (old : ByteBuffer) (from : Addr) (evs : List Event)
      (name : ByteBuffer) (mine mine' theirs theirs' : RcQp v) (nic : RNic v) (nic_id : ℕ)
      (config : QpConfig) (desc desc' : ByteBuffer)
      → r.checksum < u64_mod
      → length old ≡ max_msg_sz
      → length name ≤ max_qp_name_len
      → IsText name
      → Fits rc_req_rest_widths (rc_req_rest (asked (devices v) name mine nic_id config))
      → query s.opened_nics nic_id ≡ some nic
      → (devices v).create nic config none ≡ some theirs
      → find name s.registered_qps ≡ none
      → (devices v).connect theirs ((devices v).my_attr mine) ≡ some (make_ok desc, theirs')
      → Fits rc_reply_layout.widths (
          rc_reply_layout.fields (record {
            status = status_code ok;
            attr = (devices v).my_attr theirs';
            key = s.keys s.drawn;
          }))
      → (devices v).connect mine ((devices v).my_attr theirs') ≡ some (make_ok desc', mine')
      → (sent : ByteBuffer) × (back : ByteBuffer) × (s' : RCtrl (devices v)) × (serve
            (handlers (devices v))
            s
            (try_recv old (datagram 0 sent)).1
          ≡ replied back s')
        × (find name s'.registered_qps ≡ some (theirs', s.keys s.drawn))
        × Rts v theirs'
        × (cc_rc (devices v) none r name mine nic_id config (datagram from back ∷ evs)
            ≡ some (record {
              result = (make_ok (codes "", s.keys s.drawn), mine');
              rpc = answered r;
              sent = sent ∷ [];
              left = evs;
            }))
        × Rts v mine'
  cc_rc-ready s r old from evs name mine mine' theirs theirs' nic nic_id config desc desc' in_range
        full short text fits opened made free connected reply_fits connected' =
      let (sent, back, served, called, _) =
        cc_rc-created (devices v) s r old from evs in_range full name mine mine' theirs theirs' nic
          nic_id config desc desc' short text fits opened made free connected reply_fits
          connected' in
      (
        sent,
        back,
        created (devices v) s name theirs',
        served,
        find_head name theirs' (s.keys s.drawn) s.registered_qps,
        connected-Rts theirs theirs' _ (make_ok desc) connected refl,
        called,
        connected-Rts mine mine' _ (make_ok desc') connected' refl,
      )
