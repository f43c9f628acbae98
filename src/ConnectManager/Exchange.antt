-- ===== src/ConnectManager/Exchange.antt =====
-- A call of core/lib.hh with its reply, where the other end is the server of core/bootstrap/srpc.hh.
use rlibv.Base.{
  ℕ, ◌≤◌, ◌<◌, ◌≡◌, ◌≢◌, refl, ap, ◌∙◌, Option, none, some, List, [], ◌∷◌, length, u64_mod, arith,
  false, ◌>>=◌,
}
use rlibv.Result.{Result, make_ok}
use rlibv.Marshal.{ByteBuffer}
use rlibv.MultiMsg.{max_msg_sz}
use rlibv.Channel.{Addr, Event, datagram, try_recv, raw_send}
use rlibv.Proto.{heart_beat, max_qp_name_len}
use rlibv.Srpc.Client.{SRpc, call, posted, receive_reply}
use rlibv.Srpc.Server.{Handlers, Handler, call_one, serve, replied}
use rlibv.Srpc.Request.{max_parameter}
use rlibv.Srpc.Reply.{max_reply}
use rlibv.Srpc.Session.{answered, outcome, call-reply}
use rlibv.ConnectManager.{call_result, exchange, too_long}

-- A reply that came back from the server, and what the client has of it.
pub record Handled {S : Type 0} (hs : Handlers S) (s s' : S) (r : SRpc) (id : ℕ)
    (p reply old : ByteBuffer) (from : Addr) (evs : List Event) : Type 0 where
  pub sent : ByteBuffer
  pub back : ByteBuffer
  pub called : call r id p ≡ posted sent
  pub served : serve hs s (try_recv old (datagram 0 sent)).1 ≡ replied back s'
  pub received : receive_reply r false (datagram from back ∷ evs) ≡ (make_ok reply, answered r, evs)

pub call-Handled :
    {S : Type 0} (hs : Handlers S) (s s' : S) (f : Handler S) (r : SRpc) (id : ℕ)
    (p reply old : ByteBuffer) (from : Addr) (evs : List Event)
    → length p ≤ max_parameter
    → id < 256
    → id ≢ heart_beat
    → r.checksum < u64_mod
    → length old ≡ max_msg_sz
    → call_one hs id ≡ some f
    → f s p ≡ (some reply, s')
    → length reply ≤ max_reply
    → Handled hs s s' r id p reply old from evs
call-Handled hs s s' f r id p reply old from evs fits i ne c full found handled small =
    let (sent, back, called, served, received) =
      call-reply hs s f r id p old from evs fits i ne c full found
        (rw handled (omega (arith, small))) in
    record {
      sent = sent;
      back = back;
      called = called;
      served = served ∙ ap (λ (o : Option ByteBuffer × _). replied back o.1) handled;
      received =
          received
          ∙ ap (λ (o : Option ByteBuffer × _). (outcome o.0, answered r, evs)) handled
          ∙ ok_outcome;
    }
  where
    ok_outcome :
        ◌≡◌ {A = Result ByteBuffer × SRpc × List Event}
          (outcome (some reply), answered r, evs)
          (make_ok reply, answered r, evs)
    ok_outcome = ground arith

-- An exchange whose call is posted and sent goes on with the reply.
pub exchange-received {ℓ} :
    {A : Type ℓ} (r r' : SRpc) (id : ℕ) (p sent : ByteBuffer) (failed : Result ByteBuffer → A)
    (decode : Result ByteBuffer → Option A) (evs evs' : List Event) (res : Result ByteBuffer)
    → call r id p ≡ posted sent
    → receive_reply r false evs ≡ (res, r', evs')
    → exchange none r id p failed decode evs
      ≡ (decode res >>= λ a. some (record { result = a; rpc = r'; sent = sent ∷ []; left = evs' }))
unfolding exchange call_result raw_send
exchange-received r r' id p sent failed decode evs evs' res c h = rw (c, exchange) (rw h refl)

pub short_name : (name : ByteBuffer) → length name ≤ max_qp_name_len → too_long name ≡ false
short_name name h = ground arith
