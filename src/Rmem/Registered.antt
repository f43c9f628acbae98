-- ===== src/Rmem/Registered.antt =====
-- What a `RegHandler` of core/rmem/handler.hh tells of its memory.
use rlibv.Base.{
  ◌≡◌, refl, true, false, none, some, inl, inr, if◌then◌else◌, ◌>>=◌, Option-cases, Bool-cases,
}
use rlibv.Verbs.{Verbs}
use rlibv.Nic.{RNic}
use rlibv.Nic
use rlibv.Rmem.{RMem, MemoryFlags, get_value, new, valid, create, get_reg_attr}

module _ (v : Verbs) where
  -- `create` on an opened NIC, with the outcome of the registration
  create_lem :
      (mem : RMem) (nic : RNic v) (flags : MemoryFlags) (pd : v.Pd)
      → Nic.valid v nic ≡ true
      → nic.pd ≡ some pd
      → create v mem nic flags ≡ (
          v.reg_mr pd mem.raw_ptr mem.sz (get_value flags) >>= λ mr.
          some (record { mr = some mr; rnic = nic; rmem = mem }))
  unfolding create new valid
  create_lem mem nic flags pd ok domain =
      elim (Option-cases (v.reg_mr pd mem.raw_ptr mem.sz (get_value flags))) [
        | inl refused ↦ rw (ok, create) (rw domain (rw refused refl))
        | inr (mr, made) ↦ rw (ok, create) (rw domain (rw made refl))
      ]

  create-invalid :
      (mem : RMem) (nic : RNic v) (flags : MemoryFlags)
      → Nic.valid v nic ≡ false
      → create v mem nic flags ≡ none
  unfolding create new valid
  create-invalid mem nic flags bad = rw (bad, create) refl

  -- On a valid NIC, whose protection domain is `pd`, a region is created if the library registers the
  -- memory with the flags, and its attributes are then the memory's address and size with both keys of the
  -- registration; otherwise, and on a NIC that is not valid, nothing is created.
  create-get_reg_attr :
      (mem : RMem) (nic : RNic v) (flags : MemoryFlags) (pd : v.Pd)
      → nic.pd ≡ some pd
      → (create v mem nic flags >>= get_reg_attr v) ≡ (
          if Nic.valid v nic
          then (v.reg_mr pd mem.raw_ptr mem.sz (get_value flags) >>= λ mr.
              some (record { buf = mem.raw_ptr; sz = mem.sz; key = v.rkey mr; lkey = v.lkey mr }))
          else none)
  unfolding get_reg_attr
  create-get_reg_attr mem nic flags pd domain = elim (Bool-cases (Nic.valid v nic)) [
    | inr bad ↦ rw (bad, create-invalid mem nic flags bad) refl
    | inl ok ↦
        rw (ok, create_lem mem nic flags pd ok domain)
          (elim (Option-cases (v.reg_mr pd mem.raw_ptr mem.sz (get_value flags))) [
            | inl refused ↦ rw refused refl
            | inr (mr, made) ↦ rw made refl
          ])
  ]
