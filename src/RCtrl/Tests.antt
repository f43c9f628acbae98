-- ===== src/RCtrl/Tests.antt =====
-- Runs of core/rctrl.hh with queue pairs that are numbers.
use rlibv.Base.{ℕ, suc, ◌+◌, ◌≡◌, refl, some, none, [], ◌∷◌, arith, inr, if◌then◌else◌, ◌==◌}
use rlibv.Base.Keys.{nat_eq, string_eq, string_beq}
use rlibv.Result.{make_ok, make_err}
use rlibv.Marshal.{ByteBuffer}
use rlibv.Config.{QpConfig}
use rlibv.Factory.{find, query}
use rlibv.Proto.{status_code, ok, wrong_arg, RcReq, null_qp_attr, null_dc_attr, to_string}
use rlibv.RCtrl.{Devices, RCtrl, rc_reply, rc_status, delete_rc_reply}
use rlibv.RCtrl.CreateDelete.{created, delete-created}
use rlibv.RCtrl.Failures.{rc_reply_refused}

-- A queue pair is its number; number 13 does not connect.
abbrev numbers : Devices
numbers = record {
  Nic = ℕ;
  Mr = ℕ;
  Rc = ℕ;
  Dc = ℕ;
  Cq = ℕ;
  post_recv = λ q l. (none, q);
  get_reg_attr = λ m. none;
  my_attr = λ q. record null_qp_attr { qpn = q };
  remote_dct_attr = λ c. null_dc_attr;
  create = λ nic c cq. some (nic + c.qkey);
  connect = λ q a. if q == 13 then some (make_err [], q) else some (make_ok [], suc q);
}

abbrev server : RCtrl numbers
server = record {
  registered_mrs = [];
  registered_qps = (113 ∷ [], 7, 5) ∷ [];
  registered_dcs = [];
  opened_nics = (73, 10, 1) ∷ [];
  keys = λ n. n + 40;
  drawn = 2;
}

abbrev config : ℕ → QpConfig
config qkey = record {
  access_flags = 14;
  max_rd_atomic = 16;
  max_dest_rd_atomic = 16;
  rq_psn = 3185;
  sq_psn = 3185;
  timeout = 20;
  max_send_size = 128;
  max_recv_size = 2048;
  qkey = qkey;
  dc_key = 1024;
}

abbrev req : ByteBuffer → ℕ → ℕ → RcReq
req name whether qkey = record {
  name = name;
  name_recv = [];
  whether_create = whether;
  whether_recv = 0;
  nic_id = 73;
  config = config qkey;
  attr = null_qp_attr;
  max_recv_sz = 0;
}

abbrev free_name : ByteBuffer
free_name = 114 ∷ 0 ∷ []

abbrev taken_name : ByteBuffer
taken_name = 113 ∷ 0 ∷ []

opened : query server.opened_nics 73 ≡ some 10
unfolding query find
opened = refl

free : find (to_string free_name) server.registered_qps ≡ none
unfolding find to_string string_beq
free = refl

delete-created_example :
    (rc_reply numbers server (req free_name 1 4)
      ≡ some (
        record { status = status_code ok; attr = record null_qp_attr { qpn = 15 }; key = 42 },
        created numbers server (to_string free_name) 15,
      ))
    × (delete_rc_reply numbers
          (created numbers server (to_string free_name) 15).registered_qps
          (record { name = free_name; key = 42 })
        ≡ (rc_status ok, server.registered_qps))
    × (delete_rc_reply numbers
          (created numbers server (to_string free_name) 15).registered_qps
          (record { name = free_name; key = 41 })
        ≡ (rc_status wrong_arg, (created numbers server (to_string free_name) 15).registered_qps))
delete-created_example =
    delete-created numbers server (req free_name 1 4) 10 14 15 [] 41 refl opened refl free refl
      (λ e. omega arith)

rc_reply_refused_example :
    (s' : RCtrl numbers) × (rc_reply numbers server (req free_name 1 3)
      ≡ some (rc_status wrong_arg, s'))
    × (s'.registered_qps ≡ server.registered_qps)
rc_reply_refused_example =
    rc_reply_refused numbers server (req free_name 1 3) 10 13 refl opened refl
      (inr (free, ((make_err [], 13), refl, refl)))
