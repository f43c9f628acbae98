-- ===== src/Proto/Wire.antt =====
-- The messages of core/bootstrap/proto.hh on the wire: what is dumped comes back, with anything
-- behind it, if every field's value fits the field.
use rlibv.Base.{
  ℕ, zero, suc, ◌-◌, ◌^◌, ◌≤◌, ◌<◌, ◌≡◌, ◌≢◌, refl, ap, ◌∙◌, some, [], ◌∷◌, ◌++◌, length, drop,
  replicate, arith, take-append, drop-append, length-append, length-replicate,
}
use rlibv.Marshal.{ByteBuffer, dump, dedump}
use rlibv.Marshal.RoundTrip.{Fits, Fits-append, dedump-dump}
use rlibv.Proto.{
  null_name, name_widths, of_string, to_string, max_qp_name_len, SRpcHeader, SReplyHeader, MrReq,
  MrReply, QpReq, RcReq, RcReply, DcReply, DelRcReq, rpc_header_layout, reply_header_layout,
  mr_req_layout, mr_reply_layout, qp_req_layout, rc_req_layout, rc_reply_layout, dc_reply_layout,
  del_rc_req_layout, rc_req_rest, rc_req_rest_widths,
}

abbrev pub AreBytes : ByteBuffer → Type 0
AreBytes [] = Unit {0}
AreBytes (b ∷ bs) = (b < 256) × AreBytes bs

-- a `char[64]`
pub record IsName (n : ByteBuffer) : Type 0 where
  pub full : length n ≡ 64
  pub bytes : AreBytes n

Fits-bytes : (k : ℕ) (bs : ByteBuffer) → length bs ≡ k → AreBytes bs → Fits (replicate k 1) bs
Fits-bytes zero [] l b = tt
Fits-bytes zero (x ∷ bs) l b = absurd (omega arith)
Fits-bytes (suc k) [] l b = absurd (omega arith)
Fits-bytes (suc k) (x ∷ bs) l b = (b.0, Fits-bytes k bs (omega arith) b.1)

Fits-name : (n : ByteBuffer) → IsName n → Fits name_widths n
unfolding name_widths
Fits-name n h = Fits-bytes 64 n h.full h.bytes

dedump-dump_rpc_header :
    (t : SRpcHeader) (rest : ByteBuffer)
    → Fits rpc_header_layout.widths (rpc_header_layout.fields t)
    → dedump rpc_header_layout (dump rpc_header_layout t ++ rest) ≡ some t
dedump-dump_rpc_header t rest h = dedump-dump rpc_header_layout t rest h refl

dedump-dump_reply_header :
    (t : SReplyHeader) (rest : ByteBuffer)
    → Fits reply_header_layout.widths (reply_header_layout.fields t)
    → dedump reply_header_layout (dump reply_header_layout t ++ rest) ≡ some t
dedump-dump_reply_header t rest h = dedump-dump reply_header_layout t rest h refl

pub dedump-dump_mr_req :
    (t : MrReq) (rest : ByteBuffer)
    → Fits mr_req_layout.widths (mr_req_layout.fields t)
    → dedump mr_req_layout (dump mr_req_layout t ++ rest) ≡ some t
dedump-dump_mr_req t rest h = dedump-dump mr_req_layout t rest h refl

pub dedump-dump_mr_reply :
    (t : MrReply) (rest : ByteBuffer)
    → Fits mr_reply_layout.widths (mr_reply_layout.fields t)
    → dedump mr_reply_layout (dump mr_reply_layout t ++ rest) ≡ some t
dedump-dump_mr_reply t rest h = dedump-dump mr_reply_layout t rest h refl

-- A dumped reply about a queue pair is read back with the same members, whatever follows it, where
-- their values fit their fields.
pub dedump-dump_rc_reply :
    (t : RcReply) (rest : ByteBuffer)
    → Fits rc_reply_layout.widths (rc_reply_layout.fields t)
    → dedump rc_reply_layout (dump rc_reply_layout t ++ rest) ≡ some t
dedump-dump_rc_reply t rest h = dedump-dump rc_reply_layout t rest h refl

dedump-dump_dc_reply :
    (t : DcReply) (rest : ByteBuffer)
    → Fits dc_reply_layout.widths (dc_reply_layout.fields t)
    → dedump dc_reply_layout (dump dc_reply_layout t ++ rest) ≡ some t
dedump-dump_dc_reply t rest h = dedump-dump dc_reply_layout t rest h refl

pub dedump-dump_qp_req :
    (t : QpReq) (rest : ByteBuffer)
    → IsName t.name
    → t.key < 2 ^ 64
    → dedump qp_req_layout (dump qp_req_layout t ++ rest) ≡ some t
dedump-dump_qp_req t rest h k =
    dedump-dump qp_req_layout t rest
      (Fits-append name_widths (8 ∷ []) t.name (t.key ∷ []) (Fits-name t.name h) (k, tt))
      (rw (take-append 64 t.name (t.key ∷ []) h.full, drop-append 64 t.name (t.key ∷ []) h.full))

pub dedump-dump_del_rc_req :
    (t : DelRcReq) (rest : ByteBuffer)
    → IsName t.name
    → t.key < 2 ^ 64
    → dedump del_rc_req_layout (dump del_rc_req_layout t ++ rest) ≡ some t
dedump-dump_del_rc_req t rest h k =
    dedump-dump del_rc_req_layout t rest
      (Fits-append name_widths (8 ∷ []) t.name (t.key ∷ []) (Fits-name t.name h) (k, tt))
      (rw (take-append 64 t.name (t.key ∷ []) h.full, drop-append 64 t.name (t.key ∷ []) h.full))

-- A dumped request for a queue pair is read back with the same members, whatever follows it, where
-- the two names fill their arrays with bytes and the values of the other members fit their fields.
pub dedump-dump_rc_req :
    (t : RcReq) (rest : ByteBuffer)
    → IsName t.name
    → IsName t.name_recv
    → Fits rc_req_rest_widths (rc_req_rest t)
    → dedump rc_req_layout (dump rc_req_layout t ++ rest) ≡ some t
dedump-dump_rc_req t rest h k f =
    dedump-dump rc_req_layout t rest
      (Fits-append name_widths (name_widths ++ rc_req_rest_widths) t.name
        (t.name_recv ++ rc_req_rest t) (Fits-name t.name h)
        (Fits-append name_widths rc_req_rest_widths t.name_recv (rc_req_rest t)
          (Fits-name t.name_recv k) f))
      (rw (
        take-append 64 t.name (t.name_recv ++ rc_req_rest t) h.full,
        drop-append 64 t.name (t.name_recv ++ rc_req_rest t) h.full,
        take-append 64 t.name_recv (rc_req_rest t) k.full,
        drop-append 64 t.name_recv (rc_req_rest t) k.full,
      ))

-- A name with no 0 in it, and no byte above 255
abbrev pub IsText : ByteBuffer → Type 0
IsText [] = Unit {0}
IsText (b ∷ bs) = (b ≢ 0) × (b < 256) × IsText bs

to_string_stops : (s : ByteBuffer) (k : ℕ) → IsText s → to_string (s ++ replicate (suc k) 0) ≡ s
unfolding to_string
to_string_stops [] k h = refl
to_string_stops (b ∷ s) k h = ground (arith, to_string_stops s k h.2)

drop-replicate : (n k : ℕ) → n ≤ k → drop n (replicate {A = ℕ} k 0) ≡ replicate (k - n) 0
drop-replicate zero k h = ap (λ m. replicate m 0) (omega arith)
drop-replicate (suc n) zero h = absurd (omega arith)
drop-replicate (suc n) (suc k) h =
    drop-replicate n k (omega arith) ∙ ap (λ m. replicate m 0) (omega arith)

-- A name of at most 63 bytes, none of them 0, copied into the request's array, is the string that the other side
-- reads from the array.
pub to_string-of_string :
    (s : ByteBuffer) → length s ≤ max_qp_name_len → IsText s → to_string (of_string s) ≡ s
unfolding of_string null_name
to_string-of_string s h t =
    rw (drop-replicate (length s) 64 (omega arith))
      (ap (λ (m : ℕ). to_string (s ++ replicate m 0)) more ∙ to_string_stops s (63 - length s) t)
  where
    more : 64 - length s ≡ suc (63 - length s)
    more = omega arith

AreBytes-append : (xs ys : ByteBuffer) → AreBytes xs → AreBytes ys → AreBytes (xs ++ ys)
AreBytes-append [] ys a b = b
AreBytes-append (x ∷ xs) ys a b = (a.0, AreBytes-append xs ys a.1 b)

AreBytes-zeros : (k : ℕ) → AreBytes (replicate k 0)
AreBytes-zeros zero = tt
AreBytes-zeros (suc k) = (omega arith, AreBytes-zeros k)

AreBytes-text : (s : ByteBuffer) → IsText s → AreBytes s
AreBytes-text [] h = tt
AreBytes-text (b ∷ s) h = (h.1, AreBytes-text s h.2)

-- Such a name fills its array.
pub of_string-IsName :
    (s : ByteBuffer) → length s ≤ max_qp_name_len → IsText s → IsName (of_string s)
unfolding of_string null_name
of_string-IsName s h t = rw (drop-replicate (length s) 64 (omega arith)) (record {
  full = omega (
    arith,
    length-append s (replicate (64 - length s) 0),
    length-replicate {0} {A = ℕ} (64 - length s) 0,
  );
  bytes =
      AreBytes-append s (replicate (64 - length s) 0) (AreBytes-text s t)
        (AreBytes-zeros (64 - length s));
})
