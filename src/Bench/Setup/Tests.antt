-- ===== src/Bench/Setup/Tests.antt =====
-- A client of the benchmarks that connects to a server with a registered region.
use rlibv.Base.{ℕ, ◌≡◌, refl, some, none, List, [], ◌∷◌, ◌*◌, arith}
use rlibv.Base.Keys.{nat_eq, string_eq}
use rlibv.Base.Text.{codes}
use rlibv.Result.{make_ok}
use rlibv.Marshal.{ByteBuffer}
use rlibv.Marshal.RoundTrip.{Fits}
use rlibv.Channel.{Event, datagram, fresh_buffer}
use rlibv.Channel.Buffers.{length-fresh_buffer}
use rlibv.Factory.{find, query}
use rlibv.Proto.{RegAttr, rc_req_rest, rc_req_rest_widths}
use rlibv.Proto.Wire.{IsText}
use rlibv.Srpc.Session.{answered}
use rlibv.Verbs.Tests.{simple, simple-Documented, flags}
use rlibv.Nic.{DevIdx, query_dev_names, query_from, ports_of, ports, new, open_device, alloc_pd}
use rlibv.Nic
use rlibv.Nic.Tests.{nic, config}
use rlibv.Rmem.{RegHandler, RMem, new_mem, default_flags, get_value, get_reg_attr}
use rlibv.Rmem
use rlibv.IpName.{to_decimal, digits}
use rlibv.RCtrl.{RCtrl, handlers}
use rlibv.RCtrl.Registered.{call_one-handlers}
use rlibv.ConnectManager.{wait_ready, cc_rc, cc_rc_req, fetch_remote_mr}
use rlibv.ConnectManager.Create.{asked, cc_rc-created}
use rlibv.ConnectManager.Fetch.{fetch_remote_mr-found}
use rlibv.ConnectManager.Ready.{beat, beat_reply, wait_ready-served}
use rlibv.Qps.Rc.{bind_local_mr, bind_remote_mr}
use rlibv.Qps.RcQp.{my_attr}
use rlibv.Qps.Dummy.{int_to_u64}
use rlibv.Qps.RcQp.Tests.{initial, connected}
use rlibv.System.{devices}
use rlibv.System.Tests.{server, client, created_here, connects, reply-Fits}
use rlibv.Bench.Setup.{Flags, Sending, Worker, bind_mrs, create_remote, connect_worker, qp_name}
use rlibv.Bench.Setup.Connected.{Connected, connect_worker-Connected}

abbrev f : Flags
f = record {
  client_name = 114 ∷ [];
  nic_idx = 0;
  reg_nic_name = 73;
  reg_mem_name = 73;
  worker_id = 0;
}

abbrev name : ByteBuffer
name = codes "r thread-qp0"

name_lem : qp_name f ≡ name
unfolding to_decimal digits
name_lem = refl

abbrev sending : Sending
sending = record { heartbeats = λ n. none; creates = none; fetches = none; deletes = none }

abbrev af : ℕ → ℕ
af n = 4096

abbrev region : RegHandler simple
region = record { mr = some 8; rnic = nic; rmem = record { raw_ptr = 8192; sz = 1024 } }

abbrev with_region : RCtrl (devices simple)
with_region = record server { registered_mrs = (73, region, 1) ∷ [] }

abbrev theirs : RegAttr
theirs = record { buf = 8192; sz = 1024; key = 8; lkey = 9 }

abbrev mine : RegAttr
mine = record { buf = 4096; sz = 1024 * 1024 * 20; key = 8; lkey = 9 }

opened : query with_region.opened_nics 73 ≡ some nic
unfolding query find
opened = refl

free : find name with_region.registered_qps ≡ none
unfolding find
free = refl

region_there : query with_region.registered_mrs 73 ≡ some region
unfolding query find
region_there = refl

region_attr : (devices simple).get_reg_attr region ≡ some theirs
unfolding get_reg_attr
region_attr = refl

is_text : IsText name
is_text = omega arith

request-Fits : Fits rc_req_rest_widths (rc_req_rest (asked (devices simple) name initial 73 config))
unfolding cc_rc_req my_attr int_to_u64
request-Fits = omega arith

-- The calls, the last one first: each leaves what is received behind its reply.
fetching :
    (sent : ByteBuffer) × (back : ByteBuffer) × (fetch_remote_mr none
        (answered client)
        73
        (datagram 9 back ∷ [])
      ≡ some (record {
        result = make_ok (codes "", theirs);
        rpc = answered (answered client);
        sent = sent ∷ [];
        left = [];
      }))
fetching =
    let (sent, back, _, called) =
      fetch_remote_mr-found (devices simple) with_region (answered client) fresh_buffer 9 []
        (omega arith) length-fresh_buffer 73 region theirs (omega arith) region_there region_attr
        (omega arith) in
    (sent, back, called)

abbrev last : List Event
last = datagram 9 fetching.1 ∷ []

asking :
    (sent : ByteBuffer) × (back : ByteBuffer) × (cc_rc
        (devices simple)
        none
        client
        name
        initial
        73
        config
        (datagram 9 back ∷ last)
      ≡ some (record {
        result = (make_ok (codes "", 40), connected);
        rpc = answered client;
        sent = sent ∷ [];
        left = last;
      }))
asking =
    let (sent, back, _, called, _) =
      cc_rc-created (devices simple) with_region client fresh_buffer 9 last (omega arith)
        length-fresh_buffer name initial connected initial connected nic 73 config (codes "")
        (codes "") (omega arith) is_text request-Fits opened created_here free (connects _)
        reply-Fits (connects _) in
    (sent, back, called)

abbrev events : List Event
events = datagram 9 (beat_reply client) ∷ datagram 9 asking.1 ∷ last

ready :
    wait_ready (λ n. none) client 2 events
    ≡ some (record {
      result = make_ok (codes "");
      rpc = client;
      sent = beat client ∷ [];
      left = datagram 9 asking.1 ∷ last;
    })
ready =
    (wait_ready-served (handlers (devices simple)) with_region (λ n. none) client 1 fresh_buffer 9
      (datagram 9 asking.1 ∷ last) (omega arith) length-fresh_buffer
      (call_one-handlers (devices simple)).0 refl).1

abbrev worker : Worker simple
worker = record {
  qp = record connected {
    state = record connected.state { local_mr = some mine; remote_mr = some theirs };
  };
  rpc = answered (answered client);
  key = 40;
  local_attr = mine;
  remote_attr = theirs;
  left = [];
}

abbrev port : ℕ → DevIdx
port n = record { dev_id = 0; port_id = n }

names : query_dev_names simple ≡ some (port 1 ∷ port 2 ∷ [])
unfolding query_dev_names query_from ports_of ports new open_device alloc_pd
names = refl

nic_created : Nic.create simple (port 1) 0 ≡ some nic
unfolding Nic.create Nic.valid new open_device alloc_pd Nic.query_addr Nic.fetch_lid
nic_created = refl

connects_here : connect_worker simple flags af config f sending client events ≡ some worker
unfolding connect_worker create_remote bind_mrs Rmem.create Rmem.new Nic.valid new_mem get_reg_attr
    bind_local_mr bind_remote_mr Rmem.valid
connects_here = rw (names, nic_created, created_here, ready, name_lem, asking.2, fetching.2) refl

connect_worker-Connected_example :
    Connected simple simple-Documented flags af config f sending client events worker
connect_worker-Connected_example =
    connect_worker-Connected simple simple-Documented flags af config f sending client events worker
      connects_here
