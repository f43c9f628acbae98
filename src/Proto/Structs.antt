-- ===== src/Proto/Structs.antt =====
-- core/bootstrap/proto.hh: the ids of the requests, the names of queue pairs, and the structs that travel.
use rlibv.Base.{ℕ, ◌==◌, List, [], ◌∷◌, replicate, if◌then◌else◌}
use rlibv.Marshal.{ByteBuffer, memcpy}
use rlibv.Config.{QpConfig}

-- `RCtrlBinderIdType`
abbrev pub heart_beat : ℕ
heart_beat = 0

abbrev pub fetch_mr : ℕ
fetch_mr = 1

abbrev pub create_rc : ℕ
create_rc = 2

abbrev pub create_rcm : ℕ
create_rcm = 3

abbrev pub delete_rc : ℕ
delete_rc = 4

abbrev pub fetch_qp_attr : ℕ
fetch_qp_attr = 5

abbrev pub fetch_dc_attr : ℕ
fetch_dc_attr = 6

-- `CallbackStatus`; a reply may hold any `u8`.
pub data CallbackStatus : Type 0 where
  ok err not_found wrong_arg connect_err auth_err : CallbackStatus

abbrev pub status_code : CallbackStatus → ℕ
status_code ok = 0
status_code err = 1
status_code not_found = 2
status_code wrong_arg = 3
status_code connect_err = 4
status_code auth_err = 5

-- A name is the `char[64]` that holds it.
abbrev pub max_qp_name_len : ℕ
max_qp_name_len = 63

unfoldable pub null_name : ByteBuffer
null_name = replicate 64 0

unfoldable pub name_widths : List ℕ
name_widths = replicate 64 1

-- `memcpy` of a string's bytes into a zeroed array; more than 64 bytes run over its end.
unfoldable pub of_string : ByteBuffer → ByteBuffer
of_string s = memcpy null_name s

-- The string that an array holds: its bytes up to the first 0. Where an array has none, the source reads on behind it;
-- the string ends with the array here.
unfoldable pub to_string : ByteBuffer → ByteBuffer
to_string [] = []
to_string (b ∷ bs) = if b == 0 then [] else b ∷ to_string bs

pub record RegAttr : Type 0 where
  pub buf : ℕ
  pub sz : ℕ
  pub key : ℕ
  pub lkey : ℕ

abbrev pub null_reg_attr : RegAttr
null_reg_attr = record { buf = 0; sz = 0; key = 0; lkey = 0 }

pub record RAddress : Type 0 where
  pub subnet_prefix : ℕ
  pub interface_id : ℕ
  pub local_id : ℕ

pub record QpAttr : Type 0 where
  pub addr : RAddress
  pub lid : ℕ
  pub psn : ℕ
  pub port_id : ℕ
  pub qpn : ℕ
  pub qkey : ℕ

abbrev pub null_qp_attr : QpAttr
null_qp_attr = record {
  addr = record { subnet_prefix = 0; interface_id = 0; local_id = 0 };
  lid = 0;
  psn = 0;
  port_id = 0;
  qpn = 0;
  qkey = 0;
}

pub record DcAttr : Type 0 where
  pub lid : ℕ
  pub dct_num : ℕ
  pub dc_key : ℕ

abbrev pub null_dc_attr : DcAttr
null_dc_attr = record { lid = 0; dct_num = 0; dc_key = 0 }

pub record SRpcHeader : Type 0 where
  pub id : ℕ
  pub checksum : ℕ

pub record SReplyHeader : Type 0 where
  pub callstatus : ℕ
  pub checksum : ℕ
  pub dummy : ℕ

pub record MrReq : Type 0 where
  pub id : ℕ

pub record MrReply : Type 0 where
  pub status : ℕ
  pub attr : RegAttr

pub record QpReq : Type 0 where
  pub name : ByteBuffer
  pub key : ℕ

pub record RcReq : Type 0 where
  pub name : ByteBuffer
  pub name_recv : ByteBuffer
  pub whether_create : ℕ
  pub whether_recv : ℕ
  pub nic_id : ℕ
  pub config : QpConfig
  pub attr : QpAttr
  pub max_recv_sz : ℕ

pub record RcReply : Type 0 where
  pub status : ℕ
  pub attr : QpAttr
  pub key : ℕ

pub record DcReply : Type 0 where
  pub status : ℕ
  pub attr : DcAttr
  pub key : ℕ

pub record DelRcReq : Type 0 where
  pub name : ByteBuffer
  pub key : ℕ
