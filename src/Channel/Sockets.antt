-- ===== src/Channel/Sockets.antt =====
-- core/bootstrap/channel.hh: the sockets of `AbsChannel`, `SendChannel` and `RecvChannel`.
--
-- A socket is its descriptor; none is -1. The calls of the operating system are a parameter. Making a
-- socket non-blocking, and the bytes' order in an address, are left out.
pub mod Bound
mod Tests
use rlibv.Base.{
  ℕ, ◌%◌, Bool, true, false, Option, none, some, List, [], ◌∷◌, ◌⊎◌, not, if◌then◌else◌, ◌>>=◌,
  u16_mod,
}
use rlibv.Base.Text.{codes}
use rlibv.Base.Keys.{string_eq}
use rlibv.Result.{Result, is_ok, make_ok}
use rlibv.Marshal.{ByteBuffer}
use rlibv.Channel.{raw_send, RecvChannel, new_recv_channel}
use rlibv.IpName.{Entry, parse_addr, host2ip, int_to_string}

-- The addresses that `getaddrinfo` lists, for a host or for this machine, at a port that is given as
-- text; a socket for one of them; whether it can be bound to it. The last two are for the addresses of the
-- kind `sockaddr_in`, which are of `inet_addr`.
pub record Os : Type 1 where
  pub AddrInfo : Type 0
  pub getaddrinfo : Option ByteBuffer → ByteBuffer → Option (List AddrInfo)
  pub socket : AddrInfo → Option ℕ
  pub bind : ℕ → AddrInfo → Bool
  pub inet_addr : ByteBuffer → ℕ
  pub inaddr_any : ℕ
  pub dgram_socket : Option ℕ
  pub bind_in : ℕ → ℕ → ℕ → Bool

-- `AbsChannel::valid`
abbrev pub valid : Option ℕ → Bool
valid none = false
valid (some fd) = true

-- The descriptor behind `close_channel`
unfoldable pub close_channel : Option ℕ → Option ℕ
close_channel fd = none

-- `sockaddr_in`
pub record SockaddrIn : Type 0 where
  pub sin_port : ℕ
  pub s_addr : ℕ

pub record SendChannel : Type 0 where
  pub sock_fd : Option ℕ
  pub end_addr : SockaddrIn

-- `RecvChannel` with its socket, whether that was bound, and the descriptors that its constructor has closed
pub record Receiver : Type 0 where
  pub sock_fd : Option ℕ
  pub bound : Bool
  pub closed : List ℕ
  pub channel : RecvChannel

module _ (os : Os) where
  -- the port in the low 16 bits of the `int`
  unfoldable pub convert_addr : ByteBuffer → ℕ → SockaddrIn
  convert_addr ip port = record { sin_port = port % u16_mod; s_addr = os.inet_addr ip }

  -- the first socket that can be made
  unfoldable pub first_socket : List os.AddrInfo → Option ℕ
  first_socket [] = none
  first_socket (p ∷ ps) =
      let rest = first_socket ps in elim (os.socket p) [ none ↦ rest | some fd ↦ some fd ]

  -- the constructor of `SendChannel`
  unfoldable pub new_send : ByteBuffer → ℕ → SendChannel
  new_send ip port = record {
    sock_fd = os.getaddrinfo (some ip) (int_to_string port) >>= first_socket;
    end_addr = convert_addr ip port;
  }

  -- `SendChannel::create`, with the cache of the hosts' addresses
  unfoldable pub create_send :
      (ByteBuffer → ByteBuffer ⊎ ByteBuffer)
      → ℕ
      → List Entry
      → ByteBuffer
      → Option SendChannel × List Entry
  create_send resolve now cache addr = elim (parse_addr addr) [
    | none ↦ (none, cache)
    | some (host, port) ↦
        let (ip_res, cache') = host2ip resolve now cache host in
        let sc = new_send ip_res.desc port in
        (if is_ok ip_res then (if valid sc.sock_fd then some sc else none) else none, cache')
  ]

  -- `SendChannel::send`; the socket has to be valid, or an assertion fails.
  unfoldable pub send : SendChannel → Bool → ByteBuffer → Option (Result ByteBuffer)
  send sc sends why = if valid sc.sock_fd then some (raw_send sends why) else none

  -- The loop of `RecvChannel(port)`, with the descriptor of the turn before, and whether the loop was left
  -- by the `break`, and the descriptors that were closed. Of a socket that cannot be bound the descriptor stays, though
  -- it is closed.
  unfoldable pub bind_first : Option ℕ → List os.AddrInfo → Option ℕ × Bool × List ℕ
  bind_first sockfd [] = (sockfd, false, [])
  bind_first sockfd (p ∷ ps) = elim (os.socket p) [
    | none ↦ bind_first none ps
    | some fd ↦
        let (last, bound, closed) = bind_first (some fd) ps in
        if os.bind fd p then (some fd, true, []) else (last, bound, fd ∷ closed)
  ]

  -- The constructor `RecvChannel(port)`; `none` is the freeing of a list that is not there.
  unfoldable pub new_recv : ℕ → Option Receiver
  new_recv port = os.getaddrinfo none (int_to_string port) >>= λ servinfo.
      (let (fd, bound, closed) = bind_first none servinfo in
        some (record { sock_fd = fd; bound = bound; closed = closed; channel = new_recv_channel }))

  -- the constructor with a host, which `create` does not call
  unfoldable pub new_recv_at : ℕ → ByteBuffer → Receiver
  new_recv_at port host =
      let s_addr =
        if string_eq.beq host (codes "localhost") then os.inaddr_any else os.inet_addr host in
      elim os.dgram_socket [
        | none ↦ record { sock_fd = none; bound = false; closed = []; channel = new_recv_channel }
        | some fd ↦
            if os.bind_in fd (port % u16_mod) s_addr
            then record { sock_fd = some fd; bound = true; closed = []; channel = new_recv_channel }
            else record {
              sock_fd = close_channel (some fd);
              bound = false;
              closed = fd ∷ [];
              channel = new_recv_channel;
            }
      ]

  -- `RecvChannel::create`, whose second argument is not looked at
  unfoldable pub create_recv : ℕ → ByteBuffer → Option (Option Receiver)
  create_recv port h = new_recv port >>= λ rc. some (if valid rc.sock_fd then some rc else none)

-- `RecvChannel::reply_cur`; `value()` of a client that is not there throws.
unfoldable pub reply_cur : RecvChannel → Bool → ByteBuffer → Option (Result ByteBuffer)
reply_cur ch sends why = ch.cur_msg_client >>= λ client. some (raw_send sends why)
