-- ===== src/RecvManager/Tests.antt =====
-- Runs of core/qps/rc_recv_manager.hh with queue pairs that are numbers and rings of two entries.
use rlibv.Base.{ℕ, suc, ◌+◌, ◌≡◌, ◌≢◌, refl, some, none, [], ◌∷◌, arith, inr, ◌<◌}
use rlibv.Base.Keys.{nat_eq, string_eq, string_beq}
use rlibv.Base.Text.{codes}
use rlibv.Result.{make_ok}
use rlibv.Marshal.{ByteBuffer}
use rlibv.Marshal.RoundTrip.{Fits}
use rlibv.Config.{QpConfig}
use rlibv.Channel.{datagram, try_recv, fresh_buffer}
use rlibv.Channel.Buffers.{length-fresh_buffer}
use rlibv.Factory.{find, query}
use rlibv.Proto.{
  wrong_arg, RcReq, null_qp_attr, null_dc_attr, to_string, rc_req_rest, rc_req_rest_widths,
}
use rlibv.Proto.Wire.{IsText}
use rlibv.Srpc.Client.{SRpc}
use rlibv.Srpc.Server.{serve}
use rlibv.Srpc.Server
use rlibv.Srpc.Session.{answered}
use rlibv.RCtrl.{Devices, rc_reply, rc_status}
use rlibv.RCtrl.CreateDelete.{rc_reply-create, create_qp-eq-register_new, register_new-taken}
use rlibv.ConnectManager.{cc_rc_msg, cc_rc_msg_req, cc_rc_req}
use rlibv.Qps.RecvEntries.{RecvEntries, Allocator, create, alloc_entries}
use rlibv.Qps.RecvEntries.Ring.{IsRing}
use rlibv.RecvManager.{Managed, msg_rc_reply, replied, managed_handlers}
use rlibv.RecvManager.Created.{msg_created}
use rlibv.RecvManager.Refused.{msg_rc_reply-eq-rc_reply}
use rlibv.RecvManager.Session.{asked_msg, cc_rc_msg-created}

-- A queue pair is its number, and one higher once it is connected, and once it has entries posted.
abbrev numbers : Devices
numbers = record {
  Nic = ℕ;
  Mr = ℕ;
  Rc = ℕ;
  Dc = ℕ;
  Cq = ℕ;
  post_recv = λ q l. (none, suc q);
  get_reg_attr = λ m. none;
  my_attr = λ q. record null_qp_attr { qpn = q };
  remote_dct_attr = λ c. null_dc_attr;
  create = λ nic c cq. some nic;
  connect = λ q a. some (make_ok [], suc q);
}

-- allocator number `n` gives out the addresses from 100 on, with the key `n`
abbrev allocators : ℕ → Allocator ℕ
allocators n s sz = (some (100 + s, n), suc s)

-- Two letters: `q` is the name of a queue pair that is there, `c` of the channel.
abbrev manager : Managed numbers ℕ
manager = record {
  ctrl = record {
    registered_mrs = [];
    registered_qps = (113 ∷ [], 7, 5) ∷ [];
    registered_dcs = [];
    opened_nics = (73, 10, 1) ∷ [];
    keys = λ n. 40;
    drawn = 0;
  };
  reg_recv_cqs = (99 ∷ [], record { cq = 3; allocator = 6 }, 2) ∷ [];
  reg_recv_entries = [];
  allocs = 0;
}

abbrev config : QpConfig
config = record {
  access_flags = 14;
  max_rd_atomic = 16;
  max_dest_rd_atomic = 16;
  rq_psn = 3185;
  sq_psn = 3185;
  timeout = 20;
  max_send_size = 128;
  max_recv_size = 2048;
  qkey = 0x111111;
  dc_key = 1024;
}

abbrev req : ByteBuffer → ByteBuffer → ℕ → RcReq
req name name_recv whether_recv = record {
  name = name;
  name_recv = name_recv;
  whether_create = 1;
  whether_recv = whether_recv;
  nic_id = 73;
  config = config;
  attr = null_qp_attr;
  max_recv_sz = 64;
}

abbrev free_name : ByteBuffer
free_name = 114 ∷ 0 ∷ []

abbrev entries : RecvEntries
entries = record {
  nexts = some 1 ∷ some 0 ∷ [];
  wr_ids = 100 ∷ 101 ∷ [];
  sges = record { addr = 100; len = 64; lkey = 6 } ∷ record { addr = 101; len = 64; lkey = 6 } ∷ [];
  header = 0;
}

opened : query manager.ctrl.opened_nics 73 ≡ some 10
unfolding query find
opened = refl

queue : query manager.reg_recv_cqs (99 ∷ []) ≡ some (record { cq = 3; allocator = 6 })
unfolding query find string_beq
queue = refl

free : find (114 ∷ []) manager.ctrl.registered_qps ≡ none
unfolding find string_beq
free = refl

no_entries : find (114 ∷ []) manager.reg_recv_entries ≡ none
unfolding find
no_entries = refl

taken : find (113 ∷ []) manager.ctrl.registered_qps ≡ some (7, 5)
unfolding find string_beq
taken = refl

made_entries : create (allocators 6) 2 0 64 ≡ some (entries, 2)
unfolding create alloc_entries
made_entries = refl

existing :
    rc_reply numbers manager.ctrl (req (113 ∷ 0 ∷ []) [] 0)
    ≡ some (rc_status wrong_arg, manager.ctrl)
unfolding to_string
existing =
    rw
      (
        rc_reply-create numbers manager.ctrl (req (113 ∷ 0 ∷ []) [] 0) refl,
        create_qp-eq-register_new numbers manager.ctrl (req (113 ∷ 0 ∷ []) [] 0) 10 10 opened refl,
        register_new-taken numbers manager.ctrl (113 ∷ []) 10 null_qp_attr (7, 5) taken,
      )
      refl

msg_rc_reply-eq-rc_reply_example :
    msg_rc_reply numbers allocators 2 manager (req (113 ∷ 0 ∷ []) [] 0)
    ≡ replied (rc_status wrong_arg) manager
msg_rc_reply-eq-rc_reply_example =
    msg_rc_reply-eq-rc_reply numbers allocators 2 manager manager.ctrl (req (113 ∷ 0 ∷ []) [] 0)
      (rc_status wrong_arg) (λ e. omega arith) (inr (λ e. omega arith)) existing

one_letter : (b : ℕ) → b ≢ 0 → b < 256 → IsText (b ∷ [])
one_letter b nz small = (nz, small, tt)

abbrev client : SRpc
client = record { checksum = 3 }

cc_rc_msg-created_example :
    (sent : ByteBuffer) × (back : ByteBuffer) × (serve
        (managed_handlers numbers allocators 2)
        (some manager)
        (try_recv fresh_buffer (datagram 0 sent)).1
      ≡ Server.replied back
          (some (msg_created numbers allocators 2 manager (114 ∷ []) 12 entries 2)))
    × (cc_rc_msg numbers none client (114 ∷ []) (99 ∷ []) 64 20 73 config (datagram 9 back ∷ [])
        ≡ some (record {
          result = (make_ok (codes "", 40), 21);
          rpc = answered client;
          sent = sent ∷ [];
          left = [];
        }))
    × IsRing 2 entries
cc_rc_msg-created_example =
    cc_rc_msg-created numbers allocators 2 manager client fresh_buffer 9 [] (omega arith)
      length-fresh_buffer (114 ∷ []) (99 ∷ []) 64 20 21 10 11 12 10 73 config [] []
      (record { cq = 3; allocator = 6 }) entries 2 (omega arith)
      (one_letter 114 (λ e. omega arith) (omega arith)) (omega arith)
      (one_letter 99 (λ e. omega arith) (omega arith)) request_fits opened queue refl free refl
      made_entries no_entries (omega arith) (omega arith) refl (omega arith) refl
  where
    request_fits :
        Fits rc_req_rest_widths
          (rc_req_rest (asked_msg numbers (114 ∷ []) (99 ∷ []) 64 20 73 config))
    request_fits = unfold cc_rc_msg_req in unfold cc_rc_req in omega arith
