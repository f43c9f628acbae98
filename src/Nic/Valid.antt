-- ===== src/Nic/Valid.antt =====
-- What core/nic.hh creates is complete, and what core/nicinfo.hh lists can be created.
use mathlib.Core.List.{Memᴰ}
use mathlib.Core.List.Memᴰ
use rlibv.Base.{
  none≢some, ℕ, zero, suc, ◌+◌, ◌≤◌, ◌<◌, ◌≡◌, refl, sym, ap, ◌∙◌, true, Option, none, some, List,
  [], ◌++◌, inl, inr, length, arith, Option-cases,
}
use mathlib.Core.Option.{some_inj}
use rlibv.Verbs.{Verbs}
use rlibv.Nic.{
  DevIdx, RNic, open_device, alloc_pd, both, valid, new, create, ports, listing, ports_of,
  query_from, query_dev_names,
}

module _ (v : Verbs) where
  both_lem :
      (c : Option v.Ctx) (p : Option v.Pd) (ctx : v.Ctx)
      → both v c p some ≡ some ctx
      → (c ≡ some ctx) × (pd : v.Pd) × (p ≡ some pd)
  both_lem (some c) (some p) ctx e = (e, p, refl)
  both_lem none p ctx e = cc e
  both_lem (some c) none ctx e = cc e

  -- A device that opens, with a protection domain, can be created at each of its ports.
  create-opened :
      (idx : DevIdx) (gid : ℕ) (ctx : v.Ctx) (pd : v.Pd)
      → open_device v idx ≡ some ctx
      → v.alloc_pd ctx ≡ some pd
      → (nic : RNic v) × (create v idx gid ≡ some nic)
        × (nic.id ≡ idx)
        × (nic.ctx ≡ some ctx)
        × (nic.pd ≡ some pd)
  unfolding create new valid alloc_pd
  create-opened idx gid ctx pd opened allocated =
      (new v idx gid, rw (opened, create) (rw (allocated) refl), refl, opened, rw opened allocated)

  ports-Mem :
      (i from n : ℕ) (idx : DevIdx)
      → Memᴰ idx (ports v i from n)
      → (idx.dev_id ≡ i) × (from ≤ idx.port_id) × (idx.port_id < from + n)
  unfolding ports
  ports-Mem i from zero idx m = absurd (Memᴰ.not-nil m)
  ports-Mem i from (suc n) idx m = elim (Memᴰ.cases_cons m) [
    | inl e ↦ (
      ap (λ (x : DevIdx). x.dev_id) e,
      omega (arith, ap (λ (x : DevIdx). x.port_id) e),
      omega (arith, ap (λ (x : DevIdx). x.port_id) e),
    )
    | inr below ↦
        let h = ports-Mem i (suc from) n idx below in (h.0, omega (arith, h), omega (arith, h))
  ]

  -- what is known of a listed port
  pub record Listed (idx : DevIdx) : Type 0 where
    pub ctx : v.Ctx
    pub pd : v.Pd
    pub phys_port_cnt : ℕ
    pub opened : open_device v idx ≡ some ctx
    pub allocated : v.alloc_pd ctx ≡ some pd
    pub queried : v.query_device ctx ≡ some phys_port_cnt
    pub from_one : 1 ≤ idx.port_id
    pub in_range : idx.port_id ≤ phys_port_cnt

  opened_at :
      (i k : ℕ) (idx : DevIdx)
      → idx.dev_id ≡ i
      → open_device v idx ≡ open_device v (record { dev_id = i; port_id = k })
  unfolding open_device
  opened_at i k idx e = rw e refl

  listing-Mem :
      (i : ℕ) (ctx : v.Ctx) (pd : v.Pd) (idx : DevIdx) (cnt : Option ℕ)
      → open_device v (record { dev_id = i; port_id = 73 }) ≡ some ctx
      → v.alloc_pd ctx ≡ some pd
      → v.query_device ctx ≡ cnt
      → Memᴰ idx (listing v i cnt)
      → Listed idx
  listing-Mem i ctx pd idx none opened allocated queried m = absurd (Memᴰ.not-nil m)
  listing-Mem i ctx pd idx (some cnt) opened allocated queried m =
      let h = ports-Mem i 1 cnt idx m in
      record {
        ctx = ctx;
        pd = pd;
        phys_port_cnt = cnt;
        opened = opened_at i 73 idx h.0 ∙ opened;
        allocated = allocated;
        queried = queried;
        from_one = h.1;
        in_range = omega (arith, h);
      }

  ports_of-Mem :
      (i : ℕ) (l : List DevIdx) (idx : DevIdx) → ports_of v i ≡ some l → Memᴰ idx l → Listed idx
  unfolding ports_of new alloc_pd
  ports_of-Mem i l idx e m =
      let here : DevIdx = record { dev_id = i; port_id = 73 } in
      elim (Option-cases (open_device v here)) [
        | inl closed ↦ absurd (none≢some (sym (rw (closed, ports_of) refl) ∙ e))
        | inr (ctx, opened) ↦ elim (Option-cases (v.alloc_pd ctx)) [
          | inl refused ↦ absurd (none≢some (sym (rw (opened, ports_of) (rw refused refl)) ∙ e))
          | inr (pd, allocated) ↦
              let same : listing v i (v.query_device ctx) ≡ l =
                some_inj.0 (sym (rw (opened, ports_of) (rw allocated refl)) ∙ e) in
              listing-Mem i ctx pd idx (v.query_device ctx) opened allocated refl (rw same m)
        ]
      ]

  query_from-Mem :
      (i n : ℕ) (l : List DevIdx) (idx : DevIdx)
      → query_from v i n ≡ some l
      → Memᴰ idx l
      → Listed idx
  unfolding query_from
  query_from-Mem i zero l idx e m =
      let empty : [] ≡ l = some_inj.0 e in
      let nowhere : Memᴰ idx [] = rw empty m in absurd (Memᴰ.not-nil nowhere)
  query_from-Mem i (suc n) l idx e m = elim (Option-cases (ports_of v i)) [
    | inl failed ↦ absurd (none≢some (sym (rw (failed, query_from) refl) ∙ e))
    | inr (here, h) ↦ elim (Option-cases (query_from v (suc i) n)) [
      | inl failed ↦ absurd (none≢some (sym (rw (h, query_from) (rw failed refl)) ∙ e))
      | inr (there, t) ↦
          let same : here ++ there ≡ l = some_inj.0 (sym (rw (h, query_from) (rw t refl)) ∙ e) in
          elim (Memᴰ.append_cases here (rw same m)) [
            | inl first ↦ ports_of-Mem i here idx h first
            | inr later ↦ query_from-Mem (suc i) n there idx t later
          ]
    ]
  ]

  valid_lem :
      (nic : RNic v) (ctx : v.Ctx) (pd : v.Pd)
      → nic.ctx ≡ some ctx
      → nic.pd ≡ some pd
      → valid v nic ≡ true
  unfolding valid
  valid_lem nic ctx pd c p = rw (c, p, valid) refl

  -- Each port that the list of all ports names can be created, with any index of an address, and the NIC
  -- that is created is this port's and valid. The port's number is one of those that its device has.
  pub query_dev_names-create :
      (l : List DevIdx) (idx : DevIdx) (gid : ℕ)
      → query_dev_names v ≡ some l
      → Memᴰ idx l
      → (nic : RNic v) × (create v idx gid ≡ some nic)
        × (nic.id ≡ idx)
        × (valid v nic ≡ true)
        × (ctx : v.Ctx) × (cnt : ℕ) × (nic.ctx ≡ some ctx)
        × (v.query_device ctx ≡ some cnt)
        × (1 ≤ idx.port_id)
        × (idx.port_id ≤ cnt)
  unfolding query_dev_names
  query_dev_names-create l idx gid e m =
      let h = query_from-Mem 0 (length v.get_device_list) l idx e m in
      let (nic, made, same, ctx, pd) = create-opened idx gid h.ctx h.pd h.opened h.allocated in
      (
        nic,
        made,
        same,
        valid_lem nic h.ctx h.pd ctx pd,
        h.ctx,
        h.phys_port_cnt,
        ctx,
        h.queried,
        h.from_one,
        h.in_range,
      )
