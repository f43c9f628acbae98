-- ===== src/Release.antt =====
-- What the destructors of core/qps/mod.hh, core/qps/dc.hh, core/nic.hh and core/rmem give back to the verbs
-- library and to the allocator, in their order. A failure of such a call is only logged.
pub mod Twice
pub mod Order
mod Tests
use rlibv.Base.{ℕ, Option, none, some, List, [], ◌∷◌, ◌++◌, ◌>>=◌}
use rlibv.Verbs.{Verbs}
use rlibv.Nic.{RNic}
use rlibv.Rmem.{RMem, RegHandler}
use rlibv.Qps.Dummy.{Dummy}
use rlibv.Qps.Dc.{Dc, DcTarget}

pub data Freed (v : Verbs) : Type 0 where
  destroys_qp : v.Qp → Freed v
  destroys_cq : v.Cq → Freed v
  destroys_srq : v.Srq → Freed v
  destroys_dct : v.Dct → Freed v
  dereg_mr : v.Mr → Freed v
  dealloc_fn : ℕ → Freed v
  dealloc_pd : v.Pd → Freed v
  close_device : v.Ctx → Freed v

module _ (v : Verbs) where
  -- a call for a pointer that is not null
  abbrev pub unless_null : {A : Type 0} → (A → Freed v) → Option A → List (Freed v)
  unless_null f none = []
  unless_null f (some a) = f a ∷ []

  -- `~Dummy`, which is all that an `RC` and a `UD` have
  unfoldable pub dummy_dtor : Dummy v → List (Freed v)
  dummy_dtor q =
      unless_null destroys_qp q.qp
      ++ (unless_null destroys_cq q.cq ++ unless_null destroys_cq q.recv_cq)

  -- `~DC`, which leaves its pointers as they are, and then `~Dummy`
  unfoldable pub dc_dtor : Dc v → List (Freed v)
  dc_dtor q =
      (unless_null destroys_qp q.dummy.qp ++ unless_null destroys_cq q.dummy.cq)
      ++ dummy_dtor q.dummy

  -- `~DCTarget`; none where it reads a pointer that was never set
  unfoldable pub target_dtor : DcTarget v → Option (List (Freed v))
  target_dtor t = t.dct >>= λ dct. t.srq >>= λ srq. some (destroys_dct dct ∷ destroys_srq srq ∷ [])

  unfoldable pub nic_dtor : RNic v → List (Freed v)
  nic_dtor n = unless_null dealloc_pd n.pd ++ unless_null close_device n.ctx

  unfoldable pub mem_dtor : RMem → List (Freed v)
  mem_dtor m = dealloc_fn m.raw_ptr ∷ []

  -- `~RegHandler`, and then the members, the last one first, where no one else holds them
  unfoldable pub handler_dtor : RegHandler v → List (Freed v)
  handler_dtor h = unless_null dereg_mr h.mr ++ (mem_dtor h.rmem ++ nic_dtor h.rnic)
