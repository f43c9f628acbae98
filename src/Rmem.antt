-- ===== src/Rmem.antt =====
-- core/rmem: `MemoryFlags` of config.hh, the memory `RMem` of mem.hh, and `RegHandler` of handler.hh, which
-- registers it at a NIC.
--
-- A pointer is an address, and 0 is null. Release has the destructors.
pub mod Registered
use Prim.Native.Nat.{bit_or}
use rlibv.Base.{ℕ, Bool, true, false, Option, none, some, ◌==◌, not, if◌then◌else◌, ◌>>=◌}
use rlibv.Config.{Access}
use rlibv.Proto.{RegAttr}
use rlibv.Verbs.{Verbs}
use rlibv.Nic.{RNic}
use rlibv.Nic

pub record MemoryFlags : Type 0 where
  pub protection_flags : ℕ

unfoldable pub set_flags : MemoryFlags → ℕ → MemoryFlags
set_flags m flags = record { protection_flags = flags }

unfoldable pub get_value : MemoryFlags → ℕ
get_value m = m.protection_flags

unfoldable pub clear_flags : MemoryFlags → MemoryFlags
unfolding set_flags
clear_flags m = set_flags m 0

module _ (a : Access) where
  unfoldable pub default_flags : MemoryFlags
  default_flags = record {
    protection_flags =
        bit_or (bit_or (bit_or a.local_write a.remote_read) a.remote_write) a.remote_atomic;
  }

  unfoldable pub add_local_write : MemoryFlags → MemoryFlags
  add_local_write m = record { protection_flags = bit_or m.protection_flags a.local_write }

  -- Local write must be set to enable remote write.
  unfoldable pub add_remote_write : MemoryFlags → MemoryFlags
  unfolding add_local_write
  add_remote_write m =
      add_local_write (record { protection_flags = bit_or m.protection_flags a.remote_write })

  unfoldable pub add_remote_read : MemoryFlags → MemoryFlags
  add_remote_read m = record { protection_flags = bit_or m.protection_flags a.remote_read }

pub record RMem : Type 0 where
  pub raw_ptr : ℕ
  pub sz : ℕ

-- the constructor, with the allocation function
unfoldable pub new_mem : (ℕ → ℕ) → ℕ → RMem
new_mem af s = record { raw_ptr = af s; sz = s }

unfoldable pub mem_valid : RMem → Bool
mem_valid m = not (m.raw_ptr == 0)

pub record RegHandler (v : Verbs) : Type 0 where
  pub mr : Option v.Mr
  pub rnic : RNic v
  pub rmem : RMem

module _ (v : Verbs) where
  -- The constructor: nothing is registered at a NIC that is not valid. Whether the memory is valid is not
  -- looked at.
  unfoldable pub new : RMem → RNic v → MemoryFlags → RegHandler v
  new mem nic flags = record {
    mr =
        if Nic.valid v nic
        then (nic.pd >>= λ pd. v.reg_mr pd mem.raw_ptr mem.sz (get_value flags))
        else none;
    rnic = nic;
    rmem = mem;
  }

  unfoldable pub valid : RegHandler v → Bool
  valid h = elim h.mr [ none ↦ false | some mr ↦ true ]

  unfoldable pub create : RMem → RNic v → MemoryFlags → Option (RegHandler v)
  create mem nic flags = let h = new mem nic flags in if valid h then some h else none

  unfoldable pub get_reg_attr : RegHandler v → Option RegAttr
  get_reg_attr h = h.mr >>= λ mr.
      some (record { buf = h.rmem.raw_ptr; sz = h.rmem.sz; key = v.rkey mr; lkey = v.lkey mr })
