-- ===== src/Srpc/Reply.antt =====
-- A reply of core/bootstrap/srpc.hh on its way: what the server encodes, and what the client makes
-- of it.
use rlibv.Base.{
  ℕ, ◌+◌, ◌≤◌, ◌<◌, ◌≡◌, refl, some, none, List, [], ◌∷◌, ◌++◌, length, u32_mod, arith, append-nil,
  drop, length-drop, Bool,
}
use rlibv.Marshal.{ByteBuffer, dump, dedump}
use rlibv.Marshal.RoundTrip.{Fits, length-dump, dedump-dump}
use rlibv.MultiMsg.{MultiMsg, max_msg_sz, header_sz, buf, size, new}
use rlibv.MultiMsg.Layout.{Holds}
use rlibv.MultiMsg.Append.{appended, query_one-Holds}
use rlibv.MultiMsg.Transport.{received, received-Holds, create_from-buf}
use rlibv.MultiMsg.Pair.{
  pair, pair-Holds, size-pair, append_first, append_first-Holds, append_second, size-appended,
  size-new, create_exact-eq-new, create_exact-none,
}
use rlibv.Channel.{Addr, datagram, recv, fresh_buffer}
use rlibv.Channel.Buffers.{recv-datagram, length-fresh_buffer}
use rlibv.Proto.{SReplyHeader, reply_header_layout}
use rlibv.Srpc.Client.{SRpc, decode_reply, handle_decoded, handle_reply}
use rlibv.Srpc.Server.{header_reply, full_reply}

abbrev pub HeaderFits : SReplyHeader → Type 0
HeaderFits h = Fits reply_header_layout.widths (reply_header_layout.fields h)

-- the largest reply of a handler that is sent
abbrev pub max_reply : ℕ
max_reply = 4053

unfoldable pub full : SReplyHeader → ByteBuffer → MultiMsg
full h reply = pair max_msg_sz (10 + length reply + header_sz) (dump reply_header_layout h) reply

unfoldable pub bare : SReplyHeader → MultiMsg
bare h = appended (new max_msg_sz (10 + header_sz)) (dump reply_header_layout h)

pub full_reply-eq-buf :
    (h : SReplyHeader) (reply : ByteBuffer)
    → length reply ≤ max_reply
    → full_reply h reply ≡ some (buf (full h reply))
unfolding full_reply full
full_reply-eq-buf h reply fits = rw (
  create_exact-eq-new max_msg_sz (10 + length reply) (omega arith) (omega arith),
  append_first max_msg_sz (10 + length reply + header_sz) (dump reply_header_layout h) (omega arith)
      (omega (arith, length-dump reply_header_layout h)),
  append_second max_msg_sz (10 + length reply + header_sz) (dump reply_header_layout h) reply
      (omega arith) (omega (arith, length-dump reply_header_layout h)),
)

pub full_reply_too_large :
    (h : SReplyHeader) (reply : ByteBuffer)
    → max_reply < length reply
    → 10 + length reply < u32_mod
    → full_reply h reply ≡ none
unfolding full_reply
full_reply_too_large h reply large small =
    rw (create_exact-none max_msg_sz (10 + length reply) (omega arith) small)

pub header_reply-eq-buf : (h : SReplyHeader) → header_reply h ≡ some (buf (bare h))
unfolding header_reply bare
header_reply-eq-buf h = rw (
  create_exact-eq-new max_msg_sz 10 (omega arith) (omega arith),
  append_first max_msg_sz (10 + header_sz) (dump reply_header_layout h) (omega arith)
      (omega (arith, length-dump reply_header_layout h)),
)

pub full-Holds :
    (h : SReplyHeader) (reply : ByteBuffer)
    → length reply ≤ max_reply
    → Holds (full h reply) (dump reply_header_layout h ∷ reply ∷ []) []
unfolding full
full-Holds h reply fits =
    pair-Holds max_msg_sz (10 + length reply + header_sz) (dump reply_header_layout h) reply
      (omega arith) (omega (arith, length-dump reply_header_layout h))

pub bare-Holds : (h : SReplyHeader) → Holds (bare h) (dump reply_header_layout h ∷ []) []
unfolding bare
bare-Holds h =
    append_first-Holds max_msg_sz (10 + header_sz) (dump reply_header_layout h) (omega arith)
      (omega (arith, length-dump reply_header_layout h))

pub size-full : (h : SReplyHeader) (reply : ByteBuffer) → size (full h reply) ≡ 43 + length reply
unfolding full
size-full h reply = omega (
  arith,
  size-pair max_msg_sz (10 + length reply + header_sz) (dump reply_header_layout h) reply,
  length-dump reply_header_layout h,
)

pub size-bare : (h : SReplyHeader) → size (bare h) ≡ 43
unfolding bare
size-bare h = omega (
  arith,
  size-appended (new max_msg_sz (10 + header_sz)) (dump reply_header_layout h),
  size-new max_msg_sz (10 + header_sz),
  length-dump reply_header_layout h,
)

-- A message that begins with a reply's header is decoded to that header and its messages.
decode_reply-Holds :
    (m : MultiMsg) (h : SReplyHeader) (more : List ByteBuffer) (rest : ByteBuffer)
    → Holds m (dump reply_header_layout h ∷ more) []
    → HeaderFits h
    → size m + length rest ≤ max_msg_sz
    → decode_reply (buf m ++ rest) ≡ some (record { header = h; msg = received m rest })
unfolding decode_reply
decode_reply-Holds m h more rest holds fits room = rw (
  create_from-buf max_msg_sz rest holds room,
  query_one-Holds 0 (received-Holds rest holds),
  header_back,
)
  where
    header_back : dedump reply_header_layout (dump reply_header_layout h) ≡ some h
    header_back = rw append-nil at (dedump-dump reply_header_layout h [] fits refl)

-- What the client's `recv` makes of a datagram with such a message.
pub handle_reply-Holds :
    (r : SRpc) (heartbeat : Bool) (from : Addr) (m : MultiMsg) (h : SReplyHeader)
    (more : List ByteBuffer)
    → Holds m (dump reply_header_layout h ∷ more) []
    → HeaderFits h
    → size m ≤ max_msg_sz
    → handle_reply r heartbeat (recv (datagram from (buf m)))
      ≡ handle_decoded r heartbeat
          (record { header = h; msg = received m (drop (size m) fresh_buffer) })
unfolding handle_reply size
handle_reply-Holds r heartbeat from m h more holds fits room = rw (
  recv-datagram from (buf m) room,
  decode_reply-Holds m h more (drop (length (buf m)) fresh_buffer) holds fits
      (omega (arith, length-drop (length (buf m)) fresh_buffer, length-fresh_buffer)),
)
