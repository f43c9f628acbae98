-- ===== src/Channel/Buffers.antt =====
-- What a receive leaves in the buffers of core/bootstrap/channel.hh.
use rlibv.Base.{
  ℕ, ◌∷◌, ◌≤◌, ◌≡◌, refl, ap, ◌++◌, length, take, drop, arith, length-append, length-drop,
  length-replicate, length-take, take, zero, suc, [],
}
use rlibv.Result.{make_ok}
use rlibv.Marshal.{ByteBuffer, memcpy}
use rlibv.MultiMsg.{max_msg_sz}
use rlibv.Channel.{
  Addr, Event, datagram, quiet, select_error, recv_error, fresh_buffer, try_recv, recv,
}

take_short : (n : ℕ) (bytes : ByteBuffer) → length bytes ≤ n → take n bytes ≡ bytes
take_short zero [] h = refl
take_short zero (b ∷ bytes) h = absurd (omega arith)
take_short (suc n) [] h = refl
take_short (suc n) (b ∷ bytes) h = ap (◌∷◌ b) (take_short n bytes (omega arith))

pub length-fresh_buffer : length fresh_buffer ≡ max_msg_sz
unfolding fresh_buffer
length-fresh_buffer = length-replicate {A = ℕ} max_msg_sz 0

-- A datagram that fits stands at the start of the buffer, with the buffer's old bytes behind it.
pub try_recv-datagram :
    (buf : ByteBuffer) (from : Addr) (bytes : ByteBuffer)
    → length bytes ≤ length buf
    → try_recv buf (datagram from bytes) ≡ (make_ok from, bytes ++ drop (length bytes) buf)
unfolding try_recv
try_recv-datagram buf from bytes h = rw (take_short (length buf) bytes h)

-- The buffer keeps its size whatever is received.
pub length-try_recv : (buf : ByteBuffer) (ev : Event) → length (try_recv buf ev).1 ≡ length buf
unfolding try_recv
length-try_recv buf quiet = refl
length-try_recv buf select_error = refl
length-try_recv buf recv_error = refl
length-try_recv buf (datagram from bytes) = omega (
  arith,
  length-append (take (length buf) bytes) (drop (length (take (length buf) bytes)) buf),
  length-drop (length (take (length buf) bytes)) buf,
  length-take (length buf) bytes,
)

-- The client's buffer has its zeros behind the datagram.
pub recv-datagram :
    (from : Addr) (bytes : ByteBuffer)
    → length bytes ≤ max_msg_sz
    → recv (datagram from bytes) ≡ make_ok (bytes ++ drop (length bytes) fresh_buffer)
unfolding recv
recv-datagram from bytes h =
    ap (λ b. make_ok (memcpy fresh_buffer b))
      (take_short (length fresh_buffer) bytes (omega (arith, length-fresh_buffer)))
