-- ===== src/System/Tests.antt =====
-- Both ends of a connection, on a library where every call succeeds.
use rlibv.Base.{◌≡◌, refl, some, none, [], ◌∷◌, arith}
use rlibv.Base.Keys.{nat_eq, string_eq}
use rlibv.Base.Text.{codes}
use rlibv.Result.{make_ok}
use rlibv.Marshal.{ByteBuffer}
use rlibv.Marshal.RoundTrip.{Fits}
use rlibv.Channel.{datagram, try_recv, fresh_buffer}
use rlibv.Channel.Buffers.{length-fresh_buffer}
use rlibv.Factory.{find, query}
use rlibv.Proto.{QpAttr, rc_req_rest, rc_req_rest_widths, rc_reply_layout, status_code, ok}
use rlibv.Srpc.Client.{SRpc}
use rlibv.Srpc.Server.{serve, replied}
use rlibv.Srpc.Session.{answered}
use rlibv.Verbs.Tests.{simple, simple-Documented}
use rlibv.Nic.Tests.{nic, config}
use rlibv.RCtrl.{RCtrl, handlers}
use rlibv.ConnectManager.{cc_rc, cc_rc_req}
use rlibv.ConnectManager.Create.{asked}
use rlibv.Qps.Dummy.{valid, qp_status, int_to_u64}
use rlibv.Qps.Impl.{bring_rc_to_rcv, bring_rc_to_send, modified}
use rlibv.Qps.RcQp.{connect, really_connect, my_attr}
use rlibv.Qps.RcQp.Tests.{initial, connected, create_initial}
use rlibv.Qps.RcQp.Connect.{Rts}
use rlibv.System.{devices}
use rlibv.System.Ready.{cc_rc-ready}

abbrev pub server : RCtrl (devices simple)
server = record {
  registered_mrs = [];
  registered_qps = [];
  registered_dcs = [];
  opened_nics = (73, nic, 1) ∷ [];
  keys = λ n. 40;
  drawn = 0;
}

abbrev pub client : SRpc
client = record { checksum = 3 }

pub opened : query server.opened_nics 73 ≡ some nic
unfolding query find
opened = refl

pub free : find (114 ∷ []) server.registered_qps ≡ none
unfolding find
free = refl

pub created_here : (devices simple).create nic config none ≡ some initial
created_here = rw create_initial refl

pub connects :
    (attr : QpAttr) → (devices simple).connect initial attr ≡ some (make_ok (codes ""), connected)
unfolding connect really_connect my_attr qp_status valid bring_rc_to_rcv bring_rc_to_send modified
connects attr = refl

pub request-Fits :
    Fits rc_req_rest_widths (rc_req_rest (asked (devices simple) (114 ∷ []) initial 73 config))
unfolding cc_rc_req my_attr int_to_u64
request-Fits = omega arith

pub reply-Fits : Fits rc_reply_layout.widths (
    rc_reply_layout.fields
      (record { status = status_code ok; attr = (devices simple).my_attr connected; key = 40 }))
unfolding my_attr int_to_u64
reply-Fits = omega arith

cc_rc-ready_example :
    (sent : ByteBuffer) × (back : ByteBuffer) × (s' : RCtrl (devices simple)) × (serve
        (handlers (devices simple))
        server
        (try_recv fresh_buffer (datagram 0 sent)).1
      ≡ replied back s')
    × (find (114 ∷ []) s'.registered_qps ≡ some (connected, 40))
    × Rts simple connected
    × (cc_rc (devices simple) none client (114 ∷ []) initial 73 config (datagram 9 back ∷ [])
        ≡ some (record {
          result = (make_ok (codes "", 40), connected);
          rpc = answered client;
          sent = sent ∷ [];
          left = [];
        }))
    × Rts simple connected
cc_rc-ready_example =
    cc_rc-ready simple simple-Documented server client fresh_buffer 9 [] (114 ∷ []) initial
      connected initial connected nic 73 config (codes "") (codes "") (omega arith)
      length-fresh_buffer (omega arith) ((λ e. omega arith), omega arith, tt) request-Fits opened
      created_here free (connects _) reply-Fits (connects _)
