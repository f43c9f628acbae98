-- ===== src/System/AllReady/Tests.antt =====
-- The daemon with an empty registry, which is asked for a queue pair once.
use mathlib.Core.Option.{some_inj}
use mathlib.Core.Path.{subst}
use rlibv.Base.{ℕ, ◌≡◌, ◌∙◌, refl, sym, none, some, none≢some, [], ◌∷◌, arith, Bool-cases, inl, inr}
use rlibv.Base.Keys.{nat_eq, string_eq}
use rlibv.Base.Text.{codes}
use rlibv.Marshal.{ByteBuffer}
use rlibv.Channel.{try_recv, fresh_buffer}
use rlibv.Channel.Buffers.{length-fresh_buffer}
use rlibv.Srpc.Server.{serve, replied}
use rlibv.Srpc.EventLoop.{Answered, Message, filled, serve_all, serve_all-replied}
use rlibv.Verbs.Tests.{simple, simple-Documented}
use rlibv.Nic.{RNic}
use rlibv.Nic.Tests.{nic, config}
use rlibv.Factory.{find, query}
use rlibv.RCtrl.{RCtrl, handlers}
use rlibv.RCtrl.Daemon.{Stopped, stopped, turn, daemon-serve_all}
use rlibv.RCtrl.CreateDelete.{created}
use rlibv.ConnectManager.Create.{cc_rc-created}
use rlibv.Qps.RcQp.Tests.{initial, connected}
use rlibv.System.{devices}
use rlibv.System.Connects.{Known}
use rlibv.System.AllReady.{AllReady, daemon-AllReady}
use rlibv.System.Tests.{
  server, client, opened, free, created_here, connects, request-Fits, reply-Fits,
}

request_served :
    (sent : ByteBuffer) × (back : ByteBuffer) × (serve
        (handlers (devices simple))
        server
        (filled fresh_buffer sent)
      ≡ replied back (created (devices simple) server (114 ∷ []) connected))
unfolding try_recv
request_served =
    let (sent, back, served, called, _) =
      cc_rc-created (devices simple) server client fresh_buffer 9 [] (omega arith)
        length-fresh_buffer (114 ∷ []) initial connected initial connected nic 73 config (codes "")
        (codes "") (omega arith) ((λ e. omega arith), omega arith, tt) request-Fits opened
        created_here free (connects _) reply-Fits (connects _) in
    (sent, back, served)

abbrev asks : Message
asks = (9, request_served.0)

abbrev behind : Answered (RCtrl (devices simple))
behind = record {
  state = created (devices simple) server (114 ∷ []) connected;
  buffer = filled fresh_buffer asks.1;
  replies = (some 9, request_served.1) ∷ [];
}

all_served : serve_all (handlers (devices simple)) server fresh_buffer [] (asks ∷ []) ≡ some behind
unfolding serve_all
all_served =
    serve_all-replied (handlers (devices simple)) server behind.state fresh_buffer _ [] asks []
      request_served.2

abbrev start : Stopped (RCtrl (devices simple))
start = stopped (handlers (devices simple)) server fresh_buffer [] 0

abbrev end : Stopped (RCtrl (devices simple))
end = stopped (handlers (devices simple)) behind.state behind.buffer behind.replies 1

opened-Known : (id : ℕ) (n : RNic simple) → query server.opened_nics id ≡ some n → Known simple n
unfolding query find
opened-Known id n e = elim (Bool-cases (nat_eq.beq 73 id)) [
  | inl here ↦
      let same : query server.opened_nics id ≡ some nic = rw (here, query) refl in
      subst (Known simple) (some_inj.0 (sym same ∙ e))
        (record { addr = _; has_addr = refl; lid = 4; has_lid = refl })
  | inr other ↦
      let same : query server.opened_nics id ≡ none = rw (other, query) refl in
      absurd (none≢some (sym same ∙ e))
]

daemon-AllReady_example :
    AllReady simple simple-Documented end.state
    × (end.state.registered_mrs ≡ server.registered_mrs)
    × (end.state.registered_dcs ≡ server.registered_dcs)
    × (end.state.opened_nics ≡ server.opened_nics)
daemon-AllReady_example =
    daemon-AllReady simple simple-Documented (turn (handlers (devices simple)) (asks, []) ∷ [])
      start end (λ n e. omega arith) (λ qp e. none≢some (sym e))
      (record { distinct = tt; entries = tt; opened = opened-Known })
      (daemon-serve_all (handlers (devices simple)) ((asks, []) ∷ []) server fresh_buffer behind
        all_served)
