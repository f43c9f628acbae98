-- ===== src/Srpc/Session.antt =====
-- A call of core/bootstrap/srpc.hh from end to end: the client posts it, the server serves it, and
-- the client receives what the handler returned.
use rlibv.Base.{
  ℕ, ◌+◌, ◌%◌, ◌≤◌, ◌<◌, ◌≡◌, ◌∙◌, ◌≢◌, some, none, List, [], ◌∷◌, ◌++◌, length, u64_mod, u32_mod,
  arith, false, if◌then◌else◌, leb, drop, length-drop, Bool-cases, Bool, Option, inl, inr,
}
use rlibv.Base.Text.{codes}
use rlibv.Result.{Result, make_ok, make_err}
use rlibv.Marshal.{ByteBuffer}
use rlibv.MultiMsg.{MultiMsg, max_msg_sz, query_one, buf, size}
use rlibv.MultiMsg.Append.{query_one-Holds}
use rlibv.MultiMsg.Transport.{received, received-Holds}
use rlibv.Channel.{Addr, Event, datagram, try_recv, recv, fresh_buffer}
use rlibv.Channel.Buffers.{try_recv-datagram}
use rlibv.Proto.{SReplyHeader, heart_beat}
use rlibv.Srpc.Client.{
  SRpc, reply_result, handle_decoded, handle_reply, receive_reply, retry, done, call, posted,
  call_ok, call_nop,
}
use rlibv.Srpc.Server.{
  Handlers, Handler, call_one, replied, serve, handle_request, finish, decode_request, escapes,
  Request,
}
use rlibv.Srpc.Request.{
  request, request_header, max_parameter, call_posts, decode_request-request, size-request,
}
use rlibv.Srpc.Reply.{
  max_reply, full, bare, full_reply-eq-buf, full_reply_too_large, header_reply-eq-buf, full-Holds,
  bare-Holds, size-full, size-bare, handle_reply-Holds,
}

-- The client's state behind an answered call.
abbrev pub answered : SRpc → SRpc
answered r = record r { checksum = (r.checksum + 1) % u64_mod }

abbrev pub normal_header : SRpc → SReplyHeader
normal_header r = record { callstatus = call_ok; checksum = r.checksum; dummy = 0 }

abbrev pub nop_header : SRpc → SReplyHeader
nop_header r = record { callstatus = call_nop; checksum = r.checksum; dummy = 0 }

-- What is sent back for a handler's outcome.
abbrev pub answer : SRpc → Option ByteBuffer → MultiMsg
answer r none = bare (nop_header r)
answer r (some reply) =
    if leb (length reply) max_reply then full (normal_header r) reply else bare (nop_header r)

-- What the caller gets for it.
abbrev pub outcome : Option ByteBuffer → Result ByteBuffer
outcome none = make_err (codes "Not ready")
outcome (some reply) =
    if leb (length reply) max_reply then make_ok reply else make_err (codes "Not ready")

-- A handler's reply has, with its header, fewer than 2^32 bytes.
abbrev pub Counted : Option ByteBuffer → Type 0
Counted none = Unit {0}
Counted (some reply) = 10 + length reply < u32_mod

finish-answer :
    {S : Type 0} (r : SRpc) (id : ℕ) (o : Option ByteBuffer × S)
    → id ≢ heart_beat
    → Counted o.0
    → finish id r.checksum o ≡ replied (buf (answer r o.0)) o.1
unfolding finish
finish-answer r id (none, s) ne sized = ground (arith, header_reply-eq-buf (nop_header r))
finish-answer r id (some reply, s) ne sized = elim (Bool-cases (leb (length reply) max_reply)) [
  | inl small ↦ ground (arith, full_reply-eq-buf (normal_header r) reply)
  | inr large ↦ ground (
    arith,
    full_reply_too_large (normal_header r) reply (ground arith) sized,
    header_reply-eq-buf (nop_header r),
  )
]

pub receive_done :
    (r : SRpc) (heartbeat : Bool) (ev : Event) (evs : List Event) (res : Result ByteBuffer)
    (r' : SRpc)
    → handle_reply r heartbeat (recv ev) ≡ done res r'
    → receive_reply r heartbeat (ev ∷ evs) ≡ (res, r', evs)
unfolding receive_reply
receive_done r heartbeat ev evs res r' h = rw (h, receive_reply)

pub receive_retry :
    (r : SRpc) (heartbeat : Bool) (ev : Event) (evs : List Event)
    → handle_reply r heartbeat (recv ev) ≡ retry
    → receive_reply r heartbeat (ev ∷ evs) ≡ receive_reply r heartbeat evs
unfolding receive_reply
receive_retry r heartbeat ev evs h = rw (h, receive_reply)

pub serve_found :
    {S : Type 0} (hs : Handlers S) (s : S) (f : Handler S) (msg p : ByteBuffer) (q : Request)
    → escapes msg ≡ false
    → decode_request msg ≡ some q
    → query_one q.msg 1 ≡ some p
    → call_one hs q.header.id ≡ some f
    → serve hs s msg ≡ finish q.header.id q.header.checksum (f s p)
unfolding serve handle_request
serve_found hs s f msg p q i d m c = rw (i, d, serve) (rw (m, handle_request) (rw c))

-- The server's part, for a request with id other than the heartbeat's.
pub serve-request :
    {S : Type 0} (hs : Handlers S) (s : S) (f : Handler S) (r : SRpc) (id : ℕ) (p old : ByteBuffer)
    → length p ≤ max_parameter
    → id < 256
    → id ≢ heart_beat
    → r.checksum < u64_mod
    → length old ≡ max_msg_sz
    → call_one hs id ≡ some f
    → Counted (f s p).0
    → serve hs s (try_recv old (datagram 0 (buf (request r id p)))).1
      ≡ replied (buf (answer r (f s p).0)) (f s p).1
unfolding size
serve-request hs s f r id p old fits i ne c full_size found sized =
    rw
      (
        try_recv-datagram old 0 (buf (request r id p)) (omega (arith, size-request r id p)),
        serve_found hs s f _ p _ decoded.2 decoded.0 decoded.1 found,
      )
      (finish-answer r id (f s p) ne sized)
  where
    decoded :
        (decode_request (buf (request r id p) ++ drop (length (buf (request r id p))) old)
          ≡ some (record {
            header = request_header r id;
            msg = received (request r id p) (drop (length (buf (request r id p))) old);
          }))
        × (query_one (received (request r id p) (drop (length (buf (request r id p))) old)) 1
            ≡ some p)
        × (escapes (buf (request r id p) ++ drop (length (buf (request r id p))) old) ≡ false)
    decoded =
        decode_request-request r id p (drop (length (buf (request r id p))) old) fits i c
          (omega (arith, length-drop (length (buf (request r id p))) old, size-request r id p))

receive-bare :
    (r : SRpc) (from : Addr) (evs : List Event)
    → r.checksum < u64_mod
    → receive_reply r false (datagram from (buf (bare (nop_header r))) ∷ evs)
      ≡ (make_err (codes "Not ready"), answered r, evs)
unfolding handle_decoded reply_result
receive-bare r from evs c = receive_done r false _ evs _ _ (
    handle_reply-Holds r false from (bare (nop_header r)) (nop_header r) []
      (bare-Holds (nop_header r)) (omega arith) (omega (arith, size-bare (nop_header r)))
    ∙ ground arith)

receive-full :
    (r : SRpc) (from : Addr) (reply : ByteBuffer) (evs : List Event)
    → r.checksum < u64_mod
    → length reply ≤ max_reply
    → receive_reply r false (datagram from (buf (full (normal_header r) reply)) ∷ evs)
      ≡ (make_ok reply, answered r, evs)
unfolding handle_decoded reply_result
receive-full r from reply evs c fits = receive_done r false _ evs _ _ (
    handle_reply-Holds r false from (full (normal_header r) reply) (normal_header r) (reply ∷ [])
      (full-Holds (normal_header r) reply fits) (omega arith)
      (omega (arith, size-full (normal_header r) reply))
    ∙ ground (arith, payload))
  where
    payload :
        query_one
          (received
            (full (normal_header r) reply)
            (drop (size (full (normal_header r) reply)) fresh_buffer))
          1
        ≡ some reply
    payload = query_one-Holds 1 (received-Holds _ (full-Holds (normal_header r) reply fits))

-- The client's part.
pub receive-answer :
    (r : SRpc) (from : Addr) (o : Option ByteBuffer) (evs : List Event)
    → r.checksum < u64_mod
    → receive_reply r false (datagram from (buf (answer r o)) ∷ evs) ≡ (outcome o, answered r, evs)
receive-answer r from none evs c = receive-bare r from evs c
receive-answer r from (some reply) evs c = elim (Bool-cases (leb (length reply) max_reply)) [
  | inl small ↦ rw small (receive-full r from reply evs c (ground arith))
  | inr large ↦ rw large (receive-bare r from evs c)
]

pub call-reply :
    {S : Type 0} (hs : Handlers S) (s : S) (f : Handler S) (r : SRpc) (id : ℕ) (p old : ByteBuffer)
    (from : Addr) (evs : List Event)
    → length p ≤ max_parameter
    → id < 256
    → id ≢ heart_beat
    → r.checksum < u64_mod
    → length old ≡ max_msg_sz
    → call_one hs id ≡ some f
    → Counted (f s p).0
    → (sent : ByteBuffer) × (back : ByteBuffer) × (call r id p ≡ posted sent)
      × (serve hs s (try_recv old (datagram 0 sent)).1 ≡ replied back (f s p).1)
      × (receive_reply r false (datagram from back ∷ evs) ≡ (outcome (f s p).0, answered r, evs))
call-reply hs s f r id p old from evs fits i ne c full_size found sized = (
  buf (request r id p),
  buf (answer r (f s p).0),
  call_posts r id p fits,
  serve-request hs s f r id p old fits i ne c full_size found sized,
  receive-answer r from (f s p).0 evs c,
)
