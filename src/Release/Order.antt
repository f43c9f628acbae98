-- ===== src/Release/Order.antt =====
-- The order in which a region of core/rmem/handler.hh goes, with all that it holds.
use rlibv.Base.{
  ◌≡◌, refl, sym, ap, ◌∙◌, true, false≢true, none≢some, none, some, [], ◌∷◌, inl, inr, Bool-cases,
  Option-cases,
}
use mathlib.Core.Option.{some_inj}
use rlibv.Verbs.{Verbs}
use rlibv.Nic.{RNic, both}
use rlibv.Nic
use rlibv.Rmem.{RMem, RegHandler, MemoryFlags, get_value, new, valid, create}
use rlibv.Release.{dereg_mr, dealloc_fn, dealloc_pd, close_device, handler_dtor, mem_dtor, nic_dtor}

module _ (v : Verbs) where
  nic_parts :
      (nic : RNic v)
      → Nic.valid v nic ≡ true
      → (ctx : v.Ctx) × (pd : v.Pd) × (nic.ctx ≡ some ctx) × (nic.pd ≡ some pd)
  unfolding Nic.valid
  nic_parts nic h = elim (Option-cases nic.ctx) [
    | inl no_ctx ↦ absurd (false≢true (sym (rw no_ctx refl) ∙ h))
    | inr (ctx, c) ↦ elim (Option-cases nic.pd) [
      | inl no_pd ↦ absurd (false≢true (sym (rw (c, no_pd) refl) ∙ h))
      | inr (pd, p) ↦ (ctx, pd, c, p)
    ]
  ]

  -- A region that `create` gives is registered in the protection domain of its NIC. Where it is the last that holds its
  -- memory and its NIC, its destructor gives back the registration first, and then, in this order,
  -- the memory, the protection domain and the context, each once.
  pub handler_dtor-create :
      (mem : RMem) (nic : RNic v) (flags : MemoryFlags) (h : RegHandler v)
      → create v mem nic flags ≡ some h
      → (mr : v.Mr) × (pd : v.Pd) × (ctx : v.Ctx) × (v.reg_mr pd mem.raw_ptr mem.sz
            (get_value flags)
          ≡ some mr)
        × (nic.pd ≡ some pd)
        × (nic.ctx ≡ some ctx)
        × (handler_dtor v h
            ≡ dereg_mr mr ∷ dealloc_fn mem.raw_ptr ∷ dealloc_pd pd ∷ close_device ctx ∷ [])
  unfolding create new valid handler_dtor mem_dtor nic_dtor
  handler_dtor-create mem nic flags h e = elim (Bool-cases (Nic.valid v nic)) [
    | inr bad ↦
        let failed : create v mem nic flags ≡ none = rw (bad, create) refl in
        absurd (none≢some (sym failed ∙ e))
    | inl good ↦
        let (ctx, pd, c, p) = nic_parts nic good in
        elim (Option-cases (v.reg_mr pd mem.raw_ptr mem.sz (get_value flags))) [
          | inl refused ↦
              let failed : create v mem nic flags ≡ none =
                rw (good, create) (rw p (rw refused refl)) in
              absurd (none≢some (sym failed ∙ e))
          | inr (mr, made) ↦
              let region : RegHandler v = record { mr = some mr; rnic = nic; rmem = mem } in
              let same : create v mem nic flags ≡ some region =
                rw (good, create) (rw p (rw made refl)) in
              let freed : handler_dtor v region
                  ≡ dereg_mr mr ∷ dealloc_fn mem.raw_ptr ∷ dealloc_pd pd ∷ close_device ctx ∷ [] =
                rw (p, c, handler_dtor) refl in
              (mr, pd, ctx, made, p, c, ap (handler_dtor v) (some_inj.0 (sym e ∙ same)) ∙ freed)
        ]
  ]
