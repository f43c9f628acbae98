-- ===== src/Srpc/Server.antt =====
-- The server's end of core/bootstrap/srpc.hh: `RPCFactory` and `SRpcHandler`.
use rlibv.Base.{
  ℕ, ◌+◌, Bool, true, false, Option, none, some, List, [], ◌∷◌, length, ◌==◌, ◌||◌, if◌then◌else◌,
  ◌>>=◌, ◌≡◌, refl, ◌⊎◌, inl, inr,
}
use rlibv.Base.Text.{codes}
use rlibv.Marshal.{ByteBuffer, sizeof, dump, dedump}
use rlibv.MultiMsg.{
  MultiMsg, max_msg_sz, create_exact, create_from, append, query_one, reads_past, buf,
}
use rlibv.Channel.{Addr, Event, RecvChannel, has_msg, start, next}
use rlibv.Proto.{SRpcHeader, SReplyHeader, rpc_header_layout, reply_header_layout, heart_beat}
use rlibv.Srpc.Client.{call_ok, call_nop, call_fatal, invalid_checksum}

-- A handler works on the state `S` behind it; `none` is an exception that it throws.
abbrev pub Handler : Type 0 → Type 0
Handler S = S → ByteBuffer → Option ByteBuffer × S

-- `std::map<rpc_id_t, req_handler_f>`
abbrev pub Handlers : Type 0 → Type 0
Handlers S = List (ℕ × Handler S)

module _ {S : Type 0} where
  unfoldable pub find : ℕ → Handlers S → Option (Handler S)
  find id [] = none
  find id ((j, f) ∷ hs) = if j == id then some f else find id hs

  unfoldable pub register_handler : Handlers S → ℕ → Handler S → Bool × Handlers S
  unfolding find
  register_handler hs id f = elim (find id hs) [
    | none ↦ (true, (id, f) ∷ hs)
    | some g ↦ (false, hs)
  ]

  unfoldable pub heartbeat_handler : Handler S
  heartbeat_handler s b = (some (codes "1"), s)

  -- the constructor of `RPCFactory`
  unfoldable pub new_factory : Handlers S
  unfolding heartbeat_handler register_handler
  new_factory = (register_handler [] heart_beat heartbeat_handler).1

  -- `find(id)->second` for an id with no handler reads behind the map: `none`.
  unfoldable pub call_one : Handlers S → ℕ → Option (Handler S)
  unfolding find
  call_one hs id = find id hs

-- What serving one message does: a reply is sent, or the behaviour is undefined.
pub data Served (S : Type 0) : Type 0 where
  replied : ByteBuffer → S → Served S
  undefined : Served S

-- To split on what serving a message does, and keep the equation.
pub served-cases :
    {S : Type 0} (x : Served S)
    → (x ≡ undefined) ⊎ ((b : ByteBuffer) × (s' : S) × (x ≡ replied b s'))
served-cases undefined = inl refl
served-cases (replied b s') = inr (b, s', refl)

-- a reply of a header alone
unfoldable pub header_reply : SReplyHeader → Option ByteBuffer
header_reply h = create_exact max_msg_sz (sizeof reply_header_layout) >>= λ m.
    some (buf (append max_msg_sz m (dump reply_header_layout h)).1)

-- a header with the handler's reply behind it; the results of the appends are not looked at
unfoldable pub full_reply : SReplyHeader → ByteBuffer → Option ByteBuffer
full_reply h reply = create_exact max_msg_sz (sizeof reply_header_layout + length reply) >>= λ m.
    (let (first, m₁) = append max_msg_sz m (dump reply_header_layout h) in
      let (second, m₂) = append max_msg_sz m₁ reply in some (buf m₂))

-- the request's header and its message
pub record Request : Type 0 where
  pub header : SRpcHeader
  pub msg : MultiMsg

unfoldable pub decode_request : ByteBuffer → Option Request
decode_request b = create_from max_msg_sz b >>= λ m.
    query_one m 0 >>= λ h. dedump rpc_header_layout h >>= λ t. some (record { header = t; msg = m })

-- Whether decoding the request, or taking its parameter, reads behind the buffer.
unfoldable pub escapes : ByteBuffer → Bool
escapes b = elim (create_from max_msg_sz b) [
  | none ↦ false
  | some m ↦
      reads_past m 0 || elim (decode_request b) [ none ↦ false | some q ↦ reads_past q.msg 1 ]
]

-- A request whose first two entries are inside of its buffer
pub escapes_inside :
    (b : ByteBuffer) (m : MultiMsg) (q : Request)
    → create_from max_msg_sz b ≡ some m
    → reads_past m 0 ≡ false
    → decode_request b ≡ some q
    → reads_past q.msg 1 ≡ false
    → escapes b ≡ false
unfolding escapes
escapes_inside b m q made first decoded second =
    rw (made, escapes) (rw (first, decoded, second) refl)

abbrev pub is_heart_beat : ℕ → ℕ
is_heart_beat id = if id == heart_beat then 1 else 0

-- What a run of the loop leaves: `ok` is false once the behaviour is undefined, `left` is what has
-- not been received yet.
pub record Ran (S : Type 0) : Type 0 where
  pub ok : Bool
  pub count : ℕ
  pub state : S
  pub replies : List (Option Addr × ByteBuffer)
  pub channel : RecvChannel
  pub left : List Event

module _ {S : Type 0} where
  -- Sending a reply of a header alone. `create_exact` of its size has a value always, and behind
  -- that nothing throws.
  abbrev pub reply_header : SReplyHeader → S → Served S
  reply_header h s = elim (header_reply h) [ none ↦ undefined | some b ↦ replied b s ]

  -- the outer `catch`
  abbrev pub nop : ℕ → S → Served S
  nop checksum s = reply_header (record { callstatus = call_nop; checksum = checksum; dummy = 0 }) s

  -- the inner `catch`
  abbrev pub fatal : S → Served S
  fatal s =
      reply_header (record { callstatus = call_fatal; checksum = invalid_checksum; dummy = 0 }) s

  -- from the call of the handler on
  unfoldable pub finish : ℕ → ℕ → Option ByteBuffer × S → Served S
  finish id checksum (none, s) = nop checksum s
  finish id checksum (some reply, s) =
      elim (full_reply
        (record { callstatus = call_ok; checksum = checksum; dummy = is_heart_beat id }) reply) [
          | none ↦ nop checksum s
          | some b ↦ replied b s
        ]

  unfoldable pub handle_request : Handlers S → S → Request → Served S
  handle_request hs s q = elim (query_one q.msg 1) [
    | none ↦ nop q.header.checksum s
    | some parameter ↦ elim (call_one hs q.header.id) [
      | none ↦ undefined
      | some f ↦ finish q.header.id q.header.checksum (f s parameter)
    ]
  ]

  -- the body of the event loop
  unfoldable pub serve : Handlers S → S → ByteBuffer → Served S
  serve hs s msg =
      if escapes msg
      then undefined
      else (elim (decode_request msg) [ none ↦ fatal s | some q ↦ handle_request hs s q ])

  -- The loop with a message in the channel or none; the list has what the coming receives bring,
  -- and where it ends the next receive times out and so does the loop.
  unfoldable pub loop :
      Handlers S → S → RecvChannel → List Event → ℕ → List (Option Addr × ByteBuffer) → Ran S
  loop hs s ch [] count sent =
      if has_msg ch
      then (elim (serve hs s ch.cur_msg) [
        | undefined ↦ record {
          ok = false;
          count = count;
          state = s;
          replies = sent;
          channel = ch;
          left = [];
        }
        | replied b s' ↦ record {
          ok = true;
          count = count + 1;
          state = s';
          replies = (ch.cur_msg_client, b) ∷ sent;
          channel = record ch { cur_msg_client = none };
          left = [];
        }
      ])
      else record { ok = true; count = count; state = s; replies = sent; channel = ch; left = [] }
  loop hs s ch (ev ∷ evs) count sent =
      let rest = λ (b : ByteBuffer) (s' : S).
        loop hs s' (next ch ev) evs (count + 1) ((ch.cur_msg_client, b) ∷ sent) in
      if has_msg ch
      then (elim (serve hs s ch.cur_msg) [
        | undefined ↦ record {
          ok = false;
          count = count;
          state = s;
          replies = sent;
          channel = ch;
          left = ev ∷ evs;
        }
        | replied b s' ↦ rest b s'
      ])
      else record {
        ok = true;
        count = count;
        state = s;
        replies = sent;
        channel = ch;
        left = ev ∷ evs;
      }

  unfoldable pub run_one_event_loop : Handlers S → S → RecvChannel → Event → List Event → Ran S
  unfolding loop
  run_one_event_loop hs s ch ev evs = loop hs s (start ch ev) evs 0 []
