-- ===== src/Srpc/Stale.antt =====
-- Replies that a client of core/bootstrap/srpc.hh receives and that do not answer its call: the
-- heartbeat's, those with another checksum, and late ones.
use rlibv.Base.{
  ◌≤◌, ◌<◌, ◌≡◌, ◌≢◌, refl, ◌∙◌, Option, List, [], ◌∷◌, ◌++◌, u64_mod, arith, false, Bool,
}
use rlibv.Base.Text.{codes}
use rlibv.Result.{make_err, make_timeout}
use rlibv.Marshal.{ByteBuffer, dump}
use rlibv.MultiMsg.{MultiMsg, buf, size, max_msg_sz}
use rlibv.MultiMsg.Layout.{Holds}
use rlibv.Channel.{Addr, Event, datagram, quiet, recv}
use rlibv.Proto.{SReplyHeader, reply_header_layout}
use rlibv.Srpc.Client.{SRpc, Decoded, handle_decoded, handle_reply, receive_reply, retry, done}
use rlibv.Srpc.Reply.{HeaderFits, handle_reply-Holds}
use rlibv.Srpc.Session.{receive_retry, receive_done, answer, outcome, answered, receive-answer}

-- A message that is marked as a heartbeat's reply.
pub record IsHeartbeat (m : MultiMsg) : Type 0 where
  pub header : SReplyHeader
  pub more : List ByteBuffer
  pub holds : Holds m (dump reply_header_layout header ∷ more) []
  pub fits : HeaderFits header
  pub marked : header.dummy ≢ 0
  pub room : size m ≤ max_msg_sz

abbrev pub heartbeats : List (Addr × MultiMsg) → List Event
heartbeats [] = []
heartbeats ((from, m) ∷ ms) = datagram from (buf m) ∷ heartbeats ms

abbrev pub AreHeartbeats : List (Addr × MultiMsg) → Type 0
AreHeartbeats [] = Unit {0}
AreHeartbeats ((from, m) ∷ ms) = IsHeartbeat m × AreHeartbeats ms

marked_skips : (r : SRpc) (d : Decoded) → d.header.dummy ≢ 0 → handle_decoded r false d ≡ retry
unfolding handle_decoded
marked_skips r d h = ground arith

-- Replies of the heartbeat's, well formed and however many, that come first do not answer a call:
-- what comes behind them does.
pub receive_reply-heartbeats :
    (ms : List (Addr × MultiMsg)) (r : SRpc) (evs : List Event)
    → AreHeartbeats ms
    → receive_reply r false (heartbeats ms ++ evs) ≡ receive_reply r false evs
receive_reply-heartbeats [] r evs h = refl
receive_reply-heartbeats ((from, m) ∷ ms) r evs h =
    receive_retry r false _ (heartbeats ms ++ evs) (
      handle_reply-Holds r false from m h.0.header h.0.more h.0.holds h.0.fits h.0.room
      ∙ marked_skips r _ h.0.marked)
    ∙ receive_reply-heartbeats ms r evs h.1

other_checksum :
    (r : SRpc) (d : Decoded)
    → d.header.dummy ≡ 0
    → d.header.checksum ≢ r.checksum
    → handle_decoded r false d ≡ done (make_err (codes "Fatal checksum error")) r
unfolding handle_decoded
other_checksum r d z h = ground arith

-- A well-formed reply that is not the heartbeat's, in a message of at most 4096 bytes, and has
-- another checksum is an error, whatever it carries, and the client stays as it was.
receive_reply-other_checksum :
    (r : SRpc) (from : Addr) (m : MultiMsg) (h : SReplyHeader) (more : List ByteBuffer)
    (evs : List Event)
    → Holds m (dump reply_header_layout h ∷ more) []
    → HeaderFits h
    → size m ≤ max_msg_sz
    → h.dummy ≡ 0
    → h.checksum ≢ r.checksum
    → receive_reply r false (datagram from (buf m) ∷ evs)
      ≡ (make_err (codes "Fatal checksum error"), r, evs)
receive_reply-other_checksum r from m h more evs holds fits room z ne =
    receive_done r false _ evs _ _
      (handle_reply-Holds r false from m h more holds fits room ∙ other_checksum r _ z ne)

timed_out :
    (r : SRpc) (heartbeat : Bool)
    → handle_reply r heartbeat (recv quiet) ≡ done (make_timeout (codes "")) r
unfolding handle_reply recv
timed_out r heartbeat = refl

-- A call that timed out leaves the checksum, 64 bits wide, as it was. So its reply, if it comes
-- late, is taken for the answer to whatever the client calls next.
pub receive_reply_late :
    (r : SRpc) (from : Addr) (o : Option ByteBuffer) (evs : List Event)
    → r.checksum < u64_mod
    → (receive_reply r false (quiet ∷ []) ≡ (make_timeout (codes ""), r, []))
      × (receive_reply
            (receive_reply r false (quiet ∷ [])).1
            false
            (datagram from (buf (answer r o)) ∷ evs)
          ≡ (outcome o, answered r, evs))
receive_reply_late r from o evs c =
    let late : receive_reply r false (quiet ∷ []) ≡ (make_timeout (codes ""), r, []) =
      receive_done r false quiet [] _ _ (timed_out r false) in
    (late, rw late (receive-answer r from o evs c))
