-- ===== src/Channel.antt =====
-- core/bootstrap/channel.hh: sending and receiving datagrams of at most `max_msg_sz` bytes.
--
-- The socket calls are the operating system's. What one `select` and `recvfrom` bring is an
-- `Event`; whether `sendto` fails is a Boolean. `Sockets` has the sockets themselves.
pub mod Buffers
pub mod Sockets
use rlibv.Base.{
  ℕ, ◌+◌, Bool, true, false, Option, none, some, List, [], ◌∷◌, length, take, replicate,
  if◌then◌else◌,
}
use rlibv.Base.Text.{codes}
use rlibv.Result.{Result, make_ok, make_err, make_timeout, IoCode, is_ok}
use rlibv.Marshal.{ByteBuffer, memcpy}
use rlibv.MultiMsg.{max_msg_sz}

-- the peer's socket address
abbrev pub Addr : Type 0
Addr = ℕ

-- `select` returns 0, or -1; or there is a datagram, or `recvfrom` fails.
pub data Event : Type 0 where
  quiet select_error recv_error : Event
  datagram : Addr → ByteBuffer → Event

-- `recvfrom` fills the buffer from its start and cuts a datagram that does not fit; the bytes behind
-- the datagram stay what they were. The address is 0 where the source leaves it unset.
unfoldable pub try_recv : ByteBuffer → Event → Result Addr × ByteBuffer
try_recv buf quiet = (make_timeout 0, buf)
try_recv buf select_error = (make_err 0, buf)
try_recv buf recv_error = (make_err 0, buf)
try_recv buf (datagram from bytes) = (make_ok from, memcpy buf (take (length buf) bytes))

-- `raw_send`; the argument says whether `sendto` sends any byte, `why` is the text of `errno`.
unfoldable pub raw_send : Bool → ByteBuffer → Result ByteBuffer
raw_send true why = make_ok (codes "")
raw_send false why = make_err why

-- `ByteBuffer buf(kMaxMsgSz, '\0')`
unfoldable pub fresh_buffer : ByteBuffer
fresh_buffer = replicate max_msg_sz 0

-- `SendChannel::recv`: into a fresh buffer of zeros; a failure's code is passed on.
unfoldable pub recv : Event → Result ByteBuffer
unfolding try_recv
recv ev =
    let (res, buf) = try_recv fresh_buffer ev in
    if is_ok res then make_ok buf else record { code = res.code; desc = codes "" }

-- `RecvChannel`: who sent the current message, and the buffer, which is used for all of them.
pub record RecvChannel : Type 0 where
  pub cur_msg_client : Option Addr
  pub cur_msg : ByteBuffer

unfoldable pub new_recv_channel : RecvChannel
new_recv_channel = record { cur_msg_client = none; cur_msg = fresh_buffer }

unfoldable pub has_msg : RecvChannel → Bool
has_msg ch = elim ch.cur_msg_client [ none ↦ false | some a ↦ true ]

-- A message that is there is not received over.
unfoldable pub start : RecvChannel → Event → RecvChannel
unfolding has_msg try_recv
start ch ev =
    if has_msg ch
    then ch
    else (let (res, buf) = try_recv ch.cur_msg ev in
        if is_ok res
        then record { cur_msg_client = some res.desc; cur_msg = buf }
        else record ch { cur_msg = buf })

unfoldable pub next : RecvChannel → Event → RecvChannel
unfolding start
next ch ev = start (record ch { cur_msg_client = none }) ev
