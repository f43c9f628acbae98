-- ===== src/Nic.antt =====
-- core/nic.hh: `RNic`, an opened device with its address, with `DevIdx` of core/naming.hh; and the list
-- of the devices' ports, core/nicinfo.hh.
--
-- The members are initialised in the order of their declarations. Release has the destructor.
pub mod Valid
pub mod Tests
use rlibv.Base.{
  ℕ, zero, suc, ◌+◌, ◌%◌, Bool, true, false, Option, none, some, List, [], ◌∷◌, ◌++◌, ◌⊎◌, inl, inr,
  ltb, not, ◌&&◌, get_elem?, length, if◌then◌else◌, ◌>>=◌, u64_mod,
}
use rlibv.Base.Text.{codes}
use rlibv.Result.{Result, make_ok, make_err}
use rlibv.Marshal.{ByteBuffer}
use rlibv.Proto.{RAddress}
use rlibv.Verbs.{Verbs, PortAttr}

pub record DevIdx : Type 0 where
  pub dev_id : ℕ
  pub port_id : ℕ

pub record RNic (v : Verbs) : Type 0 where
  pub ctx : Option v.Ctx
  pub pd : Option v.Pd
  pub id : DevIdx
  pub addr : Option RAddress
  pub lid : Option ℕ

module _ (v : Verbs) where
  -- The test for a negative id never holds: the id is unsigned.
  unfoldable pub open_device : DevIdx → Option v.Ctx
  open_device idx = get_elem? v.get_device_list idx.dev_id >>= v.open_device

  unfoldable pub alloc_pd : Option v.Ctx → Option v.Pd
  alloc_pd ctx = ctx >>= v.alloc_pd

  -- `valid()` while the members are being set: both pointers are there
  abbrev pub both {ℓ} : {A : Type ℓ} → Option v.Ctx → Option v.Pd → (v.Ctx → Option A) → Option A
  both (some ctx) (some pd) f = f ctx
  both none pd f = none
  both (some ctx) none f = none

  unfoldable pub valid : RNic v → Bool
  valid nic = elim (both nic.ctx nic.pd some) [ none ↦ false | some ctx ↦ true ]

  unfoldable pub fetch_lid : Option v.Ctx → Option v.Pd → DevIdx → Option ℕ
  fetch_lid ctx pd idx =
      both ctx pd
        (λ c. elim (v.query_port c idx.port_id) [ inl why ↦ none | inr port ↦ some port.lid ])

  -- The result of `ibv_query_gid` is not looked at.
  unfoldable pub query_addr : Option v.Ctx → Option v.Pd → DevIdx → ℕ → Option RAddress
  query_addr ctx pd id gid_index = both ctx pd (λ c.
      let gid = v.query_gid c id.port_id gid_index in
      some (record {
        subnet_prefix = gid.subnet_prefix;
        interface_id = gid.interface_id;
        local_id = gid_index;
      }))

  -- the constructor
  unfoldable pub new : DevIdx → ℕ → RNic v
  new idx gid =
      let ctx = open_device idx in
      let pd = alloc_pd ctx in
      record {
        ctx = ctx;
        pd = pd;
        id = idx;
        addr = query_addr ctx pd idx gid;
        lid = fetch_lid ctx pd idx;
      }

  unfoldable pub create : DevIdx → ℕ → Option (RNic v)
  create idx gid = let nic = new idx gid in if valid nic then some nic else none

  unfoldable pub is_active : RNic v → Result ByteBuffer
  is_active nic = elim (both nic.ctx nic.pd some) [
    | none ↦ make_err (codes "Context is not valid.")
    | some ctx ↦ elim (v.query_port ctx nic.id.port_id) [
      | inl why ↦ make_err why
      | inr port ↦ if port.active then make_ok (codes "") else make_err port.state_str
    ]
  ]

  -- the ports from `port_id` on, of `n` that are left
  unfoldable pub ports : ℕ → ℕ → ℕ → List DevIdx
  ports dev_id port_id zero = []
  ports dev_id port_id (suc n) =
      record { dev_id = dev_id; port_id = port_id } ∷ ports dev_id (suc port_id) n

  -- the ports by the result of `ibv_query_device`, none where it fails
  abbrev pub listing : ℕ → Option ℕ → List DevIdx
  listing i none = []
  listing i (some phys_port_cnt) = ports i 1 phys_port_cnt

  -- the ports of one device; `none` is the failed assertion where it cannot be opened
  unfoldable pub ports_of : ℕ → Option (List DevIdx)
  ports_of i =
      let nic = new (record { dev_id = i; port_id = 73 }) 0 in
      both nic.ctx nic.pd some >>= λ ctx. some (listing i (v.query_device ctx))

  -- `for (i = from; ...)`, with `n` devices left
  unfoldable pub query_from : ℕ → ℕ → Option (List DevIdx)
  query_from i zero = some []
  query_from i (suc n) =
      let rest = query_from (suc i) n in
      ports_of i >>= λ here. rest >>= λ there. some (here ++ there)

  unfoldable pub query_dev_names : Option (List DevIdx)
  query_dev_names = query_from 0 (length v.get_device_list)
