-- ===== src/Srpc/Undefined.antt =====
-- When the server of core/bootstrap/srpc.hh leaves what C++ defines.
use rlibv.Base.{◌≡◌, none, some}
use rlibv.Marshal.{ByteBuffer}
use rlibv.MultiMsg.{query_one}
use rlibv.Srpc.Server.{Handlers, call_one, decode_request, Request}

module _ {S : Type 0} where
  -- a request that has a parameter, for an id with no handler
  pub record Unknown (hs : Handlers S) (msg : ByteBuffer) : Type 0 where
    pub request : Request
    pub parameter : ByteBuffer
    pub decoded : decode_request msg ≡ some request
    pub has_parameter : query_one request.msg 1 ≡ some parameter
    pub unhandled : call_one hs request.header.id ≡ none
