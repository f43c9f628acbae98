-- ===== src/ConnectManager/Calls.antt =====
-- core/lib.hh: a call of `ConnectManager` with its reply, and the wait for the server.
use rlibv.Base.{
  ℕ, zero, suc, Bool, true, false, Option, none, some, List, [], ◌∷◌, ◌++◌, length, ltb, not, ◌&&◌,
  ◌||◌, if◌then◌else◌, ◌>>=◌,
}
use rlibv.Base.Text.{codes}
use rlibv.Result.{Result, timeout, err, is_ok, is_code, make_err, make_timeout}
use rlibv.Marshal.{ByteBuffer}
use rlibv.Channel.{Event, raw_send}
use rlibv.Proto.{max_qp_name_len, heart_beat}
use rlibv.Srpc.Client.{SRpc, Posted, posted, too_large, aborted, call, receive_reply}

-- What a method leaves: its result, the client, the datagrams that it sent, and what it has not
-- received.
pub record Called {ℓ} (A : Type ℓ) : Type ℓ where
  pub result : A
  pub rpc : SRpc
  pub sent : List ByteBuffer
  pub left : List Event

-- what `rpc.call` returns, with what is sent
unfoldable pub call_result :
    Option ByteBuffer → Posted → Option (Result ByteBuffer × List ByteBuffer)
call_result none (posted b) = some (raw_send true [], b ∷ [])
call_result (some why) (posted b) = some (raw_send false why, [])
call_result fails too_large = some (make_err (codes "Msg too large!, only kMaxMsgSz supported"), [])
call_result fails aborted = none

unfoldable pub err_name_too_long : ByteBuffer
err_name_too_long = codes "Name to long"

unfoldable pub err_decode_reply : ByteBuffer
err_decode_reply = codes "Decode reply error"

unfoldable pub err_not_found : ByteBuffer
err_not_found = codes "attribute not found"

unfoldable pub err_unknown_status : ByteBuffer
err_unknown_status = codes "Unknown status code"

-- A heartbeat, again and again; `fails` has for each call what `sendto` does.
unfoldable pub wait_ready :
    (ℕ → Option ByteBuffer) → SRpc → ℕ → List Event → Option (Called (Result ByteBuffer))
wait_ready fails r zero evs =
    some
      (record { result = make_timeout (codes "retry exceeds num"); rpc = r; sent = []; left = evs })
wait_ready fails r (suc retry) evs =
    call_result (fails retry) (call r heart_beat (b'0' ∷ [])) >>= λ c.
    (let (res, sent) = c in
      let (reply, r', evs') = receive_reply r true evs in
      let again = wait_ready fails r' retry evs' in
      if not (is_ok res) && not (is_code res timeout)
      then some (record { result = res; rpc = r; sent = sent; left = evs })
      else (if is_ok reply || is_code reply err
          then some (record { result = reply; rpc = r'; sent = sent; left = evs' })
          else (again >>= λ a. some (record a { sent = sent ++ a.sent }))))

-- A call whose failure is returned as `failed` makes it, and whose reply goes to `replied`; `none` is
-- a result that is not there.
unfoldable pub exchange {ℓ} :
    {A : Type ℓ}
    → Option ByteBuffer
    → SRpc
    → ℕ
    → ByteBuffer
    → (Result ByteBuffer → A)
    → (Result ByteBuffer → Option A)
    → List Event
    → Option (Called A)
exchange fails r id parameter failed replied evs = call_result fails (call r id parameter) >>= λ c.
    (let (res, sent) = c in
      let (reply, r', evs') = receive_reply r false evs in
      if is_ok res
      then (replied reply >>= λ a. some (record { result = a; rpc = r'; sent = sent; left = evs' }))
      else some (record { result = failed res; rpc = r; sent = sent; left = evs }))

-- a result with nothing sent and nothing received
abbrev pub at_once {ℓ} : {A : Type ℓ} → A → SRpc → List Event → Option (Called A)
at_once a r evs = some (record { result = a; rpc = r; sent = []; left = evs })

-- `name.size() > kMaxQPNameLen`
abbrev pub too_long : ByteBuffer → Bool
too_long name = ltb max_qp_name_len (length name)
