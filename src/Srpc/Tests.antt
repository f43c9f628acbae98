-- ===== src/Srpc/Tests.antt =====
-- Runs of core/bootstrap/srpc.hh with a handler that counts its calls and echoes.
use rlibv.Base.{◌∙◌, ℕ, suc, ◌≡◌, refl, some, [], ◌∷◌, ◌++◌, false, arith}
use rlibv.Base.Text.{codes}
use rlibv.Result.{make_timeout}
use rlibv.Marshal.{ByteBuffer}
use rlibv.MultiMsg.{buf}
use rlibv.Channel.{datagram, quiet, try_recv, fresh_buffer}
use rlibv.Channel.Buffers.{length-fresh_buffer, length-try_recv}
use rlibv.Proto.{SReplyHeader}
use rlibv.Srpc.Client.{SRpc, receive_reply}
use rlibv.Srpc.Server.{Handlers, Handler, call_one, serve, replied}
use rlibv.Srpc.Request.{request}
use rlibv.Srpc.Reply.{bare, bare-Holds, size-bare}
use rlibv.Srpc.Session.{answered, outcome, answer, serve-request}
use rlibv.Srpc.EventLoop.{Message, filled, Answered, serve_all, serve_all-replied}
use rlibv.Srpc.Stale.{IsHeartbeat, heartbeats, receive_reply-heartbeats, receive_reply_late}

abbrev fresh : SRpc
fresh = record { checksum = 1 }

abbrev echo : Handler ℕ
echo s b = (some b, suc s)

abbrev pub handlers : Handlers ℕ
handlers = (5, echo) ∷ []

abbrev word : ByteBuffer
word = 104 ∷ 105 ∷ []

echo_found : call_one handlers 5 ≡ some echo
unfolding call_one
echo_found = refl

abbrev ping_header : SReplyHeader
ping_header = record { callstatus = 0; checksum = 1; dummy = 1 }

ping-IsHeartbeat : IsHeartbeat (bare ping_header)
ping-IsHeartbeat = record {
  header = ping_header;
  more = [];
  holds = bare-Holds ping_header;
  fits = omega arith;
  marked = λ e. omega arith;
  room = omega (arith, size-bare ping_header);
}

receive_reply-heartbeats_example :
    receive_reply fresh false (heartbeats ((9, bare ping_header) ∷ []) ++ (quiet ∷ []))
    ≡ receive_reply fresh false (quiet ∷ [])
receive_reply-heartbeats_example =
    receive_reply-heartbeats ((9, bare ping_header) ∷ []) fresh (quiet ∷ []) (ping-IsHeartbeat, tt)

abbrev old_header : SReplyHeader
old_header = record { callstatus = 0; checksum = 7; dummy = 0 }

receive_reply_late_example :
    (receive_reply fresh false (quiet ∷ []) ≡ (make_timeout (codes ""), fresh, []))
    × (receive_reply
          (receive_reply fresh false (quiet ∷ [])).1
          false
          (datagram 9 (buf (answer fresh (some word))) ∷ [])
        ≡ (outcome (some word), answered fresh, []))
receive_reply_late_example = receive_reply_late fresh 9 (some word) [] (omega arith)

abbrev other : SRpc
other = record { checksum = 7 }

abbrev pub first : Message
first = (9, buf (request fresh 5 word))

abbrev pub second : Message
second = (8, buf (request other 5 word))

first_served :
    serve handlers 0 (filled fresh_buffer first.1) ≡ replied (buf (answer fresh (some word))) 1
unfolding try_recv
first_served =
    serve-request handlers 0 echo fresh 5 word fresh_buffer (omega arith) (omega arith)
      (λ e. omega arith) (omega arith) length-fresh_buffer echo_found (omega arith)

second_served :
    serve handlers 1 (filled (filled fresh_buffer first.1) second.1)
    ≡ replied (buf (answer other (some word))) 2
unfolding try_recv
second_served =
    serve-request handlers 1 echo other 5 word (filled fresh_buffer first.1) (omega arith)
      (omega arith) (λ e. omega arith) (omega arith)
      (length-try_recv fresh_buffer (datagram 9 first.1) ∙ length-fresh_buffer) echo_found
      (omega arith)

abbrev pub both : Answered ℕ
both = record {
  state = 2;
  buffer = filled (filled fresh_buffer first.1) second.1;
  replies =
      (some 8, buf (answer other (some word))) ∷ (some 9, buf (answer fresh (some word))) ∷ [];
}

pub all_served : serve_all handlers 0 fresh_buffer [] (first ∷ second ∷ []) ≡ some both
unfolding serve_all
all_served =
    serve_all-replied handlers 0 1 fresh_buffer _ [] first (second ∷ []) first_served
    ∙ serve_all-replied handlers 1 2 (filled fresh_buffer first.1) _ _ second [] second_served
