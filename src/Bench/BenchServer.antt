-- ===== src/Bench/BenchServer.antt =====
-- benchs/bench_server.cc: the server opens every NIC and registers a region at each, under the same numbers.
--
-- The list of the devices' ports is asked for in each turn of a loop, and is the same each time. `none` is an assertion
-- that fails or a `value()` that throws. The numbers that are written to the first region are left out.
pub mod Registered
mod Tests
use rlibv.Base.{ℕ, zero, suc, ◌+◌, ◌*◌, Option, none, some, List, length, get_elem?, ◌>>=◌}
use rlibv.Base.Keys.{nat_eq}
use rlibv.Config.{Access}
use rlibv.Verbs.{Verbs}
use rlibv.Factory.{Store, query, create_then_reg}
use rlibv.Nic.{RNic, DevIdx, query_dev_names}
use rlibv.Nic
use rlibv.Rmem.{RegHandler, new_mem, default_flags, get_reg_attr}
use rlibv.Rmem
use rlibv.RCtrl.{RCtrl}
use rlibv.System.{devices}

-- The resources `i`, ... of `n` turns, each registered under its number, with an assertion that this is done.
-- `keys` has the keys that are drawn.
unfoldable pub register_all :
    {V : Type 0} → (ℕ → Option V) → (ℕ → ℕ) → ℕ → ℕ → ℕ → Store ℕ V → Option (Store ℕ V)
register_all make keys drawn zero i store = some store
register_all make keys drawn (suc n) i store =
    let (res, store') = create_then_reg store i (make i) (keys drawn) in
    res >>= λ registered. register_all make keys (drawn + 1) n (i + 1) store'

module _ (v : Verbs) where
  -- the NIC of a turn of the first loop
  abbrev pub open_nic : List DevIdx → ℕ → Option (RNic v)
  open_nic names i = get_elem? names i >>= λ idx. Nic.create v idx 0

  abbrev pub region_sz : ℕ
  region_sz = 1024 * 1024 * 64

  -- the region of a turn of the second loop
  -- `af i` is the allocator in turn `i`, by the size.
  abbrev pub new_region : Access → (ℕ → ℕ → ℕ) → Store ℕ (RNic v) → ℕ → Option (RegHandler v)
  new_region a af nics i =
      query nics i >>= λ nic. Rmem.create v (new_mem (af i) region_sz) nic (default_flags a)

  -- `main` up to `start_daemon`
  unfoldable pub set_up : Access → (ℕ → ℕ → ℕ) → RCtrl (devices v) → Option (RCtrl (devices v))
  set_up a af s = query_dev_names v >>= λ names.
      register_all (open_nic names) s.keys s.drawn (length names) 0 s.opened_nics >>= λ nics.
      register_all (new_region a af nics) s.keys (s.drawn + length names) (length names) 0
        s.registered_mrs
      >>= λ mrs. query mrs 0 >>= λ first. get_reg_attr v first >>= λ attr. some (record s {
        registered_mrs = mrs;
        opened_nics = nics;
        drawn = s.drawn + length names + length names;
      })
