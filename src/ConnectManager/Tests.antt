-- ===== src/ConnectManager/Tests.antt =====
-- Runs of core/lib.hh against a server with one memory region and one queue pair.
use rlibv.Base.{ℕ, suc, ◌≡◌, ◌≢◌, refl, some, none, [], ◌∷◌, ◌<◌, arith}
use rlibv.Base.Keys.{nat_eq, string_eq, string_beq}
use rlibv.Base.Text.{codes}
use rlibv.Result.{make_ok}
use rlibv.Marshal.{ByteBuffer}
use rlibv.Marshal.RoundTrip.{Fits}
use rlibv.Config.{QpConfig}
use rlibv.Channel.{datagram, try_recv, fresh_buffer}
use rlibv.Channel.Buffers.{length-fresh_buffer}
use rlibv.Factory.{find, query, erase, dereg}
use rlibv.Proto.{RegAttr, null_qp_attr, null_dc_attr, rc_req_rest, rc_req_rest_widths}
use rlibv.Proto.Wire.{IsText}
use rlibv.Srpc.Client.{SRpc}
use rlibv.Srpc.Server.{serve, replied}
use rlibv.Srpc.Session.{answered}
use rlibv.RCtrl.{Devices, RCtrl, handlers}
use rlibv.RCtrl.CreateDelete.{created}
use rlibv.ConnectManager.{cc_rc, delete_remote_rc, cc_rc_req}
use rlibv.ConnectManager.Create.{asked, cc_rc-created, delete_remote_rc-found}

abbrev region : RegAttr
region = record { buf = 4096; sz = 1024; key = 17; lkey = 18 }

-- A queue pair is its number.
abbrev numbers : Devices
numbers = record {
  Nic = ℕ;
  Mr = RegAttr;
  Rc = ℕ;
  Dc = ℕ;
  Cq = ℕ;
  post_recv = λ q l. (none, q);
  get_reg_attr = λ m. some m;
  my_attr = λ q. record null_qp_attr { qpn = q };
  remote_dct_attr = λ c. null_dc_attr;
  create = λ nic c cq. some nic;
  connect = λ q a. some (make_ok [], suc q);
}

abbrev server : RCtrl numbers
server = record {
  registered_mrs = (1, region, 9) ∷ [];
  registered_qps = (113 ∷ [], 7, 5) ∷ [];
  registered_dcs = [];
  opened_nics = (73, 10, 1) ∷ [];
  keys = λ n. 40;
  drawn = 0;
}

abbrev client : SRpc
client = record { checksum = 3 }

abbrev taken_name : ByteBuffer
taken_name = 113 ∷ []

abbrev free_name : ByteBuffer
free_name = 114 ∷ []

abbrev config : QpConfig
config = record {
  access_flags = 14;
  max_rd_atomic = 16;
  max_dest_rd_atomic = 16;
  rq_psn = 3185;
  sq_psn = 3185;
  timeout = 20;
  max_send_size = 128;
  max_recv_size = 2048;
  qkey = 0x111111;
  dc_key = 1024;
}

one_letter : (b : ℕ) → b ≢ 0 → b < 256 → IsText (b ∷ [])
one_letter b nz small = (nz, small, tt)

region_found : query server.registered_mrs 1 ≡ some region
unfolding query find
region_found = refl

region_missing : query server.registered_mrs 2 ≡ none
unfolding query find
region_missing = refl

qp_found : find taken_name server.registered_qps ≡ some (7, 5)
unfolding find string_beq
qp_found = refl

qp_queried : query server.registered_qps taken_name ≡ some 7
unfolding query find string_beq
qp_queried = refl

qp_free : find free_name server.registered_qps ≡ none
unfolding find string_beq
qp_free = refl

nic_found : query server.opened_nics 73 ≡ some 10
unfolding query find
nic_found = refl

cc_rc-created_example :
    (sent : ByteBuffer) × (back : ByteBuffer) × (serve
        (handlers numbers)
        server
        (try_recv fresh_buffer (datagram 0 sent)).1
      ≡ replied back (created numbers server free_name 11))
    × (cc_rc numbers none client free_name 20 73 config (datagram 9 back ∷ [])
        ≡ some (record {
          result = (make_ok (codes "", 40), 21);
          rpc = answered client;
          sent = sent ∷ [];
          left = [];
        }))
    × (dereg (created numbers server free_name 11).registered_qps free_name 40
        ≡ (some 11, server.registered_qps))
cc_rc-created_example =
    cc_rc-created numbers server client fresh_buffer 9 [] (omega arith) length-fresh_buffer
      free_name 20 21 10 11 10 73 config [] [] (omega arith)
      (one_letter 114 (λ e. omega arith) (omega arith)) request_fits nic_found refl qp_free refl
      (omega arith) refl
  where
    request_fits : Fits rc_req_rest_widths (rc_req_rest (asked numbers free_name 20 73 config))
    request_fits = unfold cc_rc_req in omega arith

delete_remote_rc-found_example :
    (sent : ByteBuffer) × (back : ByteBuffer) × (serve
        (handlers numbers)
        server
        (try_recv fresh_buffer (datagram 0 sent)).1
      ≡ replied back (record server { registered_qps = erase taken_name server.registered_qps }))
    × (delete_remote_rc none client taken_name 5 (datagram 9 back ∷ [])
        ≡ some (record {
          result = make_ok (codes "");
          rpc = answered client;
          sent = sent ∷ [];
          left = [];
        }))
delete_remote_rc-found_example =
    delete_remote_rc-found numbers server client fresh_buffer 9 [] (omega arith) length-fresh_buffer
      taken_name 7 5 (omega arith) (one_letter 113 (λ e. omega arith) (omega arith)) (omega arith)
      qp_found
