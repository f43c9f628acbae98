-- ===== src/Srpc/Request.antt =====
-- A request of core/bootstrap/srpc.hh on its way: `SRpc::call`, and what the server decodes of it.
use rlibv.Base.{
  ℕ, ◌+◌, ◌≤◌, ◌<◌, ◌≡◌, refl, false, some, [], ◌∷◌, ◌++◌, length, u64_mod, arith, append-nil,
}
use rlibv.Marshal.{ByteBuffer, dump, dedump}
use rlibv.Marshal.RoundTrip.{length-dump, dedump-dump}
use rlibv.MultiMsg.{MultiMsg, max_msg_sz, header_sz, query_one, buf, size}
use rlibv.MultiMsg.Layout.{Holds}
use rlibv.MultiMsg.Append.{query_one-Holds, reads_past-Holds}
use rlibv.MultiMsg.Transport.{received, received-Holds, create_from-buf}
use rlibv.MultiMsg.Pair.{
  pair, pair-Holds, size-pair, append_first, append_second, create_exact-eq-new,
}
use rlibv.Proto.{SRpcHeader, rpc_header_layout}
use rlibv.Srpc.Client.{SRpc, call, posted, rpc_id_sz}
use rlibv.Srpc.Server.{decode_request, escapes, escapes_inside}

abbrev pub request_header : SRpc → ℕ → SRpcHeader
request_header r id = record { id = id; checksum = r.checksum }

-- the largest parameter that `call` posts
abbrev pub max_parameter : ℕ
max_parameter = 4054

unfoldable pub request : SRpc → ℕ → ByteBuffer → MultiMsg
request r id p =
    pair max_msg_sz (rpc_id_sz + length p + header_sz)
      (dump rpc_header_layout (request_header r id)) p

module _ (r : SRpc) (id : ℕ) (p : ByteBuffer) where
  -- Up to the limit the call posts the header and the parameter.
  pub call_posts : length p ≤ max_parameter → call r id p ≡ posted (buf (request r id p))
  unfolding call request
  call_posts h = rw (
    create_exact-eq-new max_msg_sz (rpc_id_sz + length p) (omega arith) (omega arith),
    append_first max_msg_sz (rpc_id_sz + length p + header_sz)
        (dump rpc_header_layout (request_header r id)) (omega arith)
        (omega (arith, length-dump rpc_header_layout (request_header r id))),
    append_second max_msg_sz (rpc_id_sz + length p + header_sz)
        (dump rpc_header_layout (request_header r id)) p (omega arith)
        (omega (arith, length-dump rpc_header_layout (request_header r id))),
    call,
  )

  request-Holds :
      length p ≤ max_parameter
      → Holds (request r id p) (dump rpc_header_layout (request_header r id) ∷ p ∷ []) []
  unfolding request
  request-Holds h =
      pair-Holds max_msg_sz (rpc_id_sz + length p + header_sz)
        (dump rpc_header_layout (request_header r id)) p (omega arith)
        (omega (arith, length-dump rpc_header_layout (request_header r id)))

  -- A posted request is decoded whatever the server's buffer has behind it, with the same header,
  -- and the message holds the same parameter.
  pub decode_request-request :
      (rest : ByteBuffer)
      → length p ≤ max_parameter
      → id < 256
      → r.checksum < u64_mod
      → size (request r id p) + length rest ≤ max_msg_sz
      → (decode_request (buf (request r id p) ++ rest)
          ≡ some (record { header = request_header r id; msg = received (request r id p) rest }))
        × (query_one (received (request r id p) rest) 1 ≡ some p)
        × (escapes (buf (request r id p) ++ rest) ≡ false)
  unfolding decode_request
  decode_request-request rest h i c fits = (
    decoded,
    query_one-Holds 1 (received-Holds rest (request-Holds h)),
    escapes_inside (buf (request r id p) ++ rest) (received (request r id p) rest)
        (record { header = request_header r id; msg = received (request r id p) rest })
        (create_from-buf max_msg_sz rest (request-Holds h) fits)
        (reads_past-Holds 0 (received-Holds rest (request-Holds h))) decoded
        (reads_past-Holds 1 (received-Holds rest (request-Holds h))),
  )
    where
      header_back :
          dedump rpc_header_layout (dump rpc_header_layout (request_header r id))
          ≡ some (request_header r id)
      header_back =
          rw append-nil at
            (dedump-dump rpc_header_layout (request_header r id) [] (i, (c, tt)) refl)

      decoded :
          decode_request (buf (request r id p) ++ rest)
          ≡ some (record { header = request_header r id; msg = received (request r id p) rest })
      decoded =
          rw
            (
              create_from-buf max_msg_sz rest (request-Holds h) fits,
              query_one-Holds 0 (received-Holds rest (request-Holds h)),
              header_back,
            )
            refl

pub size-request :
    (r : SRpc) (id : ℕ) (p : ByteBuffer) → size (request r id p) ≡ header_sz + 9 + length p
unfolding request
size-request r id p = omega (
  arith,
  size-pair max_msg_sz (rpc_id_sz + length p + header_sz)
      (dump rpc_header_layout (request_header r id)) p,
  length-dump rpc_header_layout (request_header r id),
)
