-- ===== src/ConnectManager/Ready.antt =====
-- Waiting for a server: `wait_ready` of core/lib.hh with the heartbeat of core/bootstrap/srpc.hh.
use rlibv.Base.{
  ℕ, zero, suc, ◌<◌, ◌≡◌, refl, ◌∙◌, Option, none, some, List, [], ◌∷◌, ◌++◌, length, drop,
  length-drop, u64_mod, arith, true, replicate,
}
use rlibv.Base.Text.{codes}
use rlibv.Result.{make_ok, make_timeout}
use rlibv.Marshal.{ByteBuffer}
use rlibv.MultiMsg.{max_msg_sz, buf, size}
use rlibv.Channel.{Addr, Event, datagram, quiet, try_recv, recv, raw_send}
use rlibv.Channel.Buffers.{try_recv-datagram}
use rlibv.Proto.{SReplyHeader, heart_beat}
use rlibv.Srpc.Client.{SRpc, receive_reply, handle_decoded, handle_reply, call_ok}
use rlibv.Srpc.Server.{Handlers, call_one, heartbeat_handler, serve, finish, replied}
use rlibv.Srpc.Request.{request, call_posts, decode_request-request, size-request}
use rlibv.Srpc.Reply.{full, full-Holds, full_reply-eq-buf, size-full, handle_reply-Holds}
use rlibv.Srpc.Session.{receive_done, serve_found}
use rlibv.ConnectManager.{call_result, wait_ready}

-- the parameter of a heartbeat, and the handler's reply
abbrev pub zero_char : ByteBuffer
zero_char = b'0' ∷ []

abbrev pub beat : SRpc → ByteBuffer
beat r = buf (request r heart_beat zero_char)

abbrev pub beat_header : SRpc → SReplyHeader
beat_header r = record { callstatus = call_ok; checksum = r.checksum; dummy = 1 }

abbrev pub beat_reply : SRpc → ByteBuffer
beat_reply r = buf (full (beat_header r) (codes "1"))

quiet-receive :
    (r : SRpc) (evs : List Event)
    → receive_reply r true (quiet ∷ evs) ≡ (make_timeout (codes ""), r, evs)
unfolding handle_reply recv
quiet-receive r evs = receive_done r true quiet evs _ _ refl

-- While every heartbeat is sent and nothing comes, `wait_ready` sends `retry` of them, and then it
-- gives up; the client stays as it was.
wait_ready-quiet :
    (fails : ℕ → Option ByteBuffer) (r : SRpc) (retry : ℕ) (evs : List Event)
    → ((i : ℕ) → fails i ≡ none)
    → wait_ready fails r retry (replicate retry quiet ++ evs)
      ≡ some (record {
        result = make_timeout (codes "retry exceeds num");
        rpc = r;
        sent = replicate retry (beat r);
        left = evs;
      })
unfolding wait_ready call_result raw_send
wait_ready-quiet fails r zero evs sends = refl
wait_ready-quiet fails r (suc retry) evs sends =
    rw
      (
        sends retry,
        call_posts r heart_beat zero_char (omega arith),
        quiet-receive r (replicate retry quiet ++ evs),
        wait_ready-quiet fails r retry evs sends,
      )
      refl

beat-received :
    (r : SRpc) (from : Addr) (evs : List Event)
    → r.checksum < u64_mod
    → receive_reply r true (datagram from (beat_reply r) ∷ evs) ≡ (make_ok (codes ""), r, evs)
unfolding handle_decoded
beat-received r from evs c = receive_done r true _ evs _ _ (
    handle_reply-Holds r true from (full (beat_header r) (codes "1")) (beat_header r)
      (codes "1" ∷ []) (full-Holds (beat_header r) (codes "1") (omega arith)) (omega arith)
      (omega (arith, size-full (beat_header r) (codes "1")))
    ∙ refl)

finish-beat :
    {S : Type 0} (s : S) (r : SRpc)
    → finish heart_beat r.checksum (some (codes "1"), s) ≡ replied (beat_reply r) s
unfolding finish
finish-beat s r = rw (full_reply-eq-buf (beat_header r) (codes "1") (omega arith), finish) refl

beat-served :
    {S : Type 0} (hs : Handlers S) (s : S) (r : SRpc) (old : ByteBuffer)
    → r.checksum < u64_mod
    → length old ≡ max_msg_sz
    → call_one hs heart_beat ≡ some heartbeat_handler
    → serve hs s (try_recv old (datagram 0 (beat r))).1 ≡ replied (beat_reply r) s
unfolding size heartbeat_handler
beat-served hs s r old c full_size found =
    let (h, m, i) =
      decode_request-request r heart_beat zero_char (drop (length (beat r)) old) (omega arith)
        (omega arith) c
        (omega (arith, length-drop (length (beat r)) old, size-request r heart_beat zero_char)) in
    rw
      (
        try_recv-datagram old 0 (beat r) (omega (arith, size-request r heart_beat zero_char)),
        serve_found hs s heartbeat_handler _ zero_char _ i h m found,
      )
      (finish-beat s r)

-- A server with the heartbeat's handler, and a buffer of 4096 bytes, answers a heartbeat, with its
-- state as it was, and a client with a 64-bit checksum that receives this answer at the first
-- attempt is ready, with its checksum as it was.
pub wait_ready-served :
    {S : Type 0} (hs : Handlers S) (s : S) (fails : ℕ → Option ByteBuffer) (r : SRpc) (retry : ℕ)
    (old : ByteBuffer) (from : Addr) (evs : List Event)
    → r.checksum < u64_mod
    → length old ≡ max_msg_sz
    → call_one hs heart_beat ≡ some heartbeat_handler
    → fails retry ≡ none
    → (serve hs s (try_recv old (datagram 0 (beat r))).1 ≡ replied (beat_reply r) s)
      × (wait_ready fails r (suc retry) (datagram from (beat_reply r) ∷ evs)
          ≡ some (record { result = make_ok (codes ""); rpc = r; sent = beat r ∷ []; left = evs }))
unfolding wait_ready call_result raw_send
wait_ready-served hs s fails r retry old from evs c full_size found sends = (
  beat-served hs s r old c full_size found,
  rw (sends, call_posts r heart_beat zero_char (omega arith), beat-received r from evs c) refl,
)
