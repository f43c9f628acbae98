-- ===== src/Bench/BenchServer/Tests.antt =====
-- A server with one device of two ports.
use rlibv.Base.{◌*◌, ℕ, ◌+◌, ◌≡◌, refl, some, none, Option, [], ◌∷◌}
use rlibv.Base.Keys.{nat_eq}
use rlibv.Factory.{find, query, reg, create_then_reg}
use rlibv.Verbs.Tests.{simple, flags}
use rlibv.Nic.{
  DevIdx, RNic, query_dev_names, query_from, ports_of, ports, new, open_device, alloc_pd,
}
use rlibv.Nic
use rlibv.Rmem.{RegHandler, new_mem, default_flags, get_reg_attr, get_value}
use rlibv.Rmem
use rlibv.RCtrl.{RCtrl}
use rlibv.System.{devices}
use rlibv.Bench.BenchServer.{register_all, region_sz, set_up}
use rlibv.Bench.BenchServer.Registered.{set_up-registered}

abbrev start : RCtrl (devices simple)
start = record {
  registered_mrs = [];
  registered_qps = [];
  registered_dcs = [];
  opened_nics = [];
  keys = λ n. 40 + n;
  drawn = 0;
}

-- another address in each turn
abbrev af : ℕ → ℕ → ℕ
af i n = 4096 + i * n

abbrev port : ℕ → DevIdx
port n = record { dev_id = 0; port_id = n }

listed : query_dev_names simple ≡ some (port 1 ∷ port 2 ∷ [])
unfolding query_dev_names query_from ports_of ports new open_device alloc_pd
listed = refl

abbrev left_by : Option (RCtrl (devices simple)) → RCtrl (devices simple)
left_by none = start
left_by (some s) = s

-- when the daemon starts
abbrev ready : RCtrl (devices simple)
ready = left_by (set_up simple flags af start)

runs : set_up simple flags af start ≡ some ready
unfolding set_up query_dev_names query_from ports_of ports new open_device alloc_pd register_all
    create_then_reg reg query find Nic.create Nic.valid Nic.query_addr Nic.fetch_lid Rmem.create
    Rmem.new Rmem.valid new_mem get_value get_reg_attr
runs = refl

set_up-registered_example :
    ((nic : RNic simple) × (h : RegHandler simple) × (Nic.create simple (port 2) 0 ≡ some nic)
      × (Rmem.create simple (new_mem (af 1) (region_sz simple)) nic (default_flags flags) ≡ some h)
      × (query ready.opened_nics 1 ≡ some nic)
      × (query ready.registered_mrs 1 ≡ some h))
    × (ready.registered_qps ≡ start.registered_qps)
set_up-registered_example =
    set_up-registered simple flags af start ready (port 1 ∷ port 2 ∷ []) 1 (port 2) listed refl runs
