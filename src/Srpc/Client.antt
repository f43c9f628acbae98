-- ===== src/Srpc/Client.antt =====
-- The client's end of core/bootstrap/srpc.hh: `SRpc`.
use rlibv.Base.{
  ℕ, ◌+◌, ◌%◌, Bool, Option, none, some, List, [], ◌∷◌, length, ◌==◌, not, if◌then◌else◌, u64_mod,
  ◌>>=◌,
}
use rlibv.Base.Text.{codes}
use rlibv.Result.{Result, make_ok, make_err, make_timeout, is_ok}
use rlibv.Marshal.{ByteBuffer, dump, dedump}
use rlibv.MultiMsg.{MultiMsg, max_msg_sz, create_exact, create_from, append, query_one, buf}
use rlibv.Channel.{Event, recv}
use rlibv.Proto.{SRpcHeader, SReplyHeader, rpc_header_layout, reply_header_layout}

-- `CallStatus`
abbrev pub call_ok : ℕ
call_ok = 0

abbrev pub call_nop : ℕ
call_nop = 1

abbrev pub call_fatal : ℕ
call_fatal = 4

abbrev pub invalid_checksum : ℕ
invalid_checksum = 0

-- The channel is the caller's; what is left of an `SRpc` is its checksum, a `u64`.
pub record SRpc : Type 0 where
  pub checksum : ℕ

unfoldable pub new : SRpc
new = record { checksum = invalid_checksum + 1 }

-- A call posts a datagram, or returns the error that the message is too large, or a failed
-- `RDMA_ASSERT` aborts the process.
pub data Posted : Type 0 where
  posted : ByteBuffer → Posted
  too_large : Posted
  aborted : Posted

abbrev pub rpc_id_sz : ℕ
rpc_id_sz = 1

unfoldable pub call : SRpc → ℕ → ByteBuffer → Posted
call r id parameter = elim (create_exact max_msg_sz (rpc_id_sz + length parameter)) [
  | none ↦ too_large
  | some m ↦
      let head : SRpcHeader = record { id = id; checksum = r.checksum } in
      let (first, m₁) = append max_msg_sz m (dump rpc_header_layout head) in
      let (second, m₂) = append max_msg_sz m₁ parameter in
      if first then if second then posted (buf m₂) else aborted else aborted
]

-- The reply's header and the message that it came in. `none` is a thrown exception.
pub record Decoded : Type 0 where
  pub header : SReplyHeader
  pub msg : MultiMsg

unfoldable pub decode_reply : ByteBuffer → Option Decoded
decode_reply b = create_from max_msg_sz b >>= λ m. query_one m 0 >>= λ h.
    dedump reply_header_layout h >>= λ t. some (record { header = t; msg = m })

-- `try { ... } catch`: what a missing value is turned into.
abbrev pub or_decode_error : Option (Result ByteBuffer) → Result ByteBuffer
or_decode_error none = make_err (codes "decode reply error")
or_decode_error (some r) = r

-- the switch on `header.callstatus`
unfoldable pub reply_result : Decoded → Result ByteBuffer
reply_result d =
    if d.header.callstatus == call_ok
    then or_decode_error (query_one d.msg 1 >>= λ b. some (make_ok b))
    else (if d.header.callstatus == call_nop
        then make_err (codes "Not ready")
        else make_err (codes "unknown error"))

-- What one received reply leads to: another receive, or the result.
pub data Handled : Type 0 where
  retry : Handled
  done : Result ByteBuffer → SRpc → Handled

unfoldable pub handle_decoded : SRpc → Bool → Decoded → Handled
unfolding reply_result
handle_decoded r heartbeat d =
    if not (d.header.dummy == 0)
    then if heartbeat then done (make_ok (codes "")) r else retry
    else (if d.header.checksum == r.checksum
        then done (reply_result d) (record r { checksum = (r.checksum + 1) % u64_mod })
        else done (make_err (codes "Fatal checksum error")) r)

unfoldable pub handle_reply : SRpc → Bool → Result ByteBuffer → Handled
unfolding handle_decoded
handle_reply r heartbeat res =
    if is_ok res
    then (elim (decode_reply res.desc) [
      | none ↦ done (make_err (codes "decode reply error")) r
      | some d ↦ handle_decoded r heartbeat d
    ])
    else done res r

-- The list has what the coming receives bring; behind its end they time out. The result has what is
-- left of it.
unfoldable pub receive_reply : SRpc → Bool → List Event → Result ByteBuffer × SRpc × List Event
receive_reply r heartbeat [] = (make_timeout (codes ""), r, [])
receive_reply r heartbeat (ev ∷ evs) =
    let again = receive_reply r heartbeat evs in
    elim (handle_reply r heartbeat (recv ev)) [ retry ↦ again | done res r' ↦ (res, r', evs) ]
