-- ===== src/RCtrl/Sound.antt =====
-- What no request can break in the registries of core/rctrl.hh.
use rlibv.Base.{
  ℕ, ◌+◌, ◌≤◌, ◌≡◌, ◌≢◌, none≢some, refl, sym, ◌∙◌, true, Option, none, some, ◌∷◌, ◌==◌, arith,
  Option-cases, Bool-cases, inl, inr, ◌>>=◌,
}
use rlibv.Base.Keys.{string_eq, nat_eq}
use mathlib.Core.Path.{subst}
use rlibv.Result.{Result, is_ok}
use rlibv.Marshal.{ByteBuffer, dedump, dump}
use rlibv.Factory.{Store, find, query, dereg, reg}
use rlibv.Factory.Laws.{Distinct, dereg-Distinct, reg_taken}
use rlibv.Config.{QpConfig}
use rlibv.Proto.{
  QpAttr, RcReq, RcReply, DelRcReq, wrong_arg, to_string, rc_reply_layout, mr_req_layout,
  qp_req_layout, rc_req_layout, del_rc_req_layout, fetch_mr, create_rc, fetch_qp_attr,
  fetch_dc_attr,
}
use rlibv.Proto
use rlibv.Srpc.Keeps.{Keeps, AllKeep, register_handler-AllKeep, new_factory-AllKeep}
use rlibv.RCtrl.{
  Devices, RCtrl, fetch_mr_handler, delete_rc, delete_rc_reply, deleted, fetch_qp_attr_wrapper,
  fetch_dc_attr_wrapper, register_new, create_qp, reply_created, rc_reply, rc_handler, handlers,
  connect_new, left_behind, registered, rc_status, fetch_qp_attr_reply,
}
use rlibv.RCtrl.Entries.{AllEntries, dereg-AllEntries}
use rlibv.RCtrl.CreateDelete.{
  connect_new-result, register_new-free, register_new-taken, create_qp-eq-register_new,
}

-- `P` is what every connected queue pair has, `G` what every key that is drawn has, `Q` what every opened NIC has.
module _ (d : Devices) (P : d.Rc → Type 0) (G : ℕ → Type 0) (Q : d.Nic → Type 0) where
  -- The names are distinct, every registered queue pair has `P`, every key `G`, and every opened NIC `Q`.
  pub record Sound (s : RCtrl d) : Type 0 where
    pub distinct : Distinct s.registered_qps
    pub entries : AllEntries P G s.registered_qps
    pub opened : (id : ℕ) (nic : d.Nic) → query s.opened_nics id ≡ some nic → Q nic

  -- What the server is behind some requests: the rest of the registries is as it was, and the registry of
  -- queue pairs stays sound.
  pub record Follows (s t : RCtrl d) : Type 0 where
    pub mrs : t.registered_mrs ≡ s.registered_mrs
    pub dcs : t.registered_dcs ≡ s.registered_dcs
    pub nics : t.opened_nics ≡ s.opened_nics
    pub keys : t.keys ≡ s.keys
    pub drawn : s.drawn ≤ t.drawn
    pub sound : ((n : ℕ) → G (s.keys n)) → Sound s → Sound t

  pub Follows_refl : (s : RCtrl d) → Follows s s
  Follows_refl s = record {
    mrs = refl;
    dcs = refl;
    nics = refl;
    keys = refl;
    drawn = omega arith;
    sound = λ g h. h;
  }

  pub Follows_trans : (s t u : RCtrl d) → Follows s t → Follows t u → Follows s u
  Follows_trans s t u a b = record {
    mrs = b.mrs ∙ a.mrs;
    dcs = b.dcs ∙ a.dcs;
    nics = b.nics ∙ a.nics;
    keys = b.keys ∙ a.keys;
    drawn = omega (arith, a.drawn, b.drawn);
    sound = λ g h. b.sound (λ n. subst (λ (k : ℕ → ℕ). G (k n)) (sym a.keys) (g n)) (a.sound g h);
  }

  -- only the registry of queue pairs changes, and the number of drawn keys
  followed :
      (s : RCtrl d) (store : Store ByteBuffer d.Rc) (drawn : ℕ)
      → s.drawn ≤ drawn
      → (((n : ℕ) → G (s.keys n)) → Sound s → Distinct store × AllEntries P G store)
      → Follows s (record s { registered_qps = store; drawn = drawn })
  followed s store drawn le h = record {
    mrs = refl;
    dcs = refl;
    nics = refl;
    keys = refl;
    drawn = le;
    sound = λ g a. record { distinct = (h g a).0; entries = (h g a).1; opened = a.opened };
  }

  module _
      (connect-P : (rc rc' : d.Rc) (attr : QpAttr) (res : Result ByteBuffer)
        → d.connect rc attr ≡ some (res, rc')
        → is_ok res ≡ true
        → P rc')
      (connects : (nic : d.Nic) (config : QpConfig) (rc : d.Rc) (attr : QpAttr)
        → Q nic
        → d.create nic config none ≡ some rc
        → d.connect rc attr ≢ none) where
    -- what `create_qp` gives, where it gives something
    abbrev Next : RCtrl d → Option (Option ℕ × RCtrl d) → Type 0
    Next s none = Unit {0}
    Next s (some r) = Follows s r.1

    register_new-Follows :
        (s : RCtrl d) (name : ByteBuffer) (rc : d.Rc) (attr : QpAttr)
        → Next s (register_new d s name rc attr)
    unfolding connect_new
    register_new-Follows s name rc attr = elim (Option-cases (find name s.registered_qps)) [
      | inl free ↦
          rw (register_new-free d s name rc attr free) (elim (Option-cases (d.connect rc attr)) [
            | inl throws ↦ rw (throws, connect_new) tt
            | inr ((res, rc'), connected) ↦
                rw
                  (connect_new-result d s s.registered_qps name rc (s.keys s.drawn) (s.drawn + 1)
                    attr (res, rc') connected)
                  (elim (Bool-cases (is_ok res)) [
                    | inl good ↦ rw good (
                        followed s ((name, rc', s.keys s.drawn) ∷ s.registered_qps) (s.drawn + 1)
                          (omega arith)
                          (λ g (h : Sound s). (
                            (free, h.distinct),
                            (connect-P rc rc' attr res connected good, g s.drawn, h.entries),
                          )))
                    | inr bad ↦ rw bad (
                        followed s s.registered_qps (s.drawn + 1) (omega arith)
                          (λ g (h : Sound s). (h.distinct, h.entries)))
                  ])
          ])
      | inr (x, taken) ↦ rw (register_new-taken d s name rc attr x taken) (Follows_refl s)
    ]

    create_qp-Next : (s : RCtrl d) (req : RcReq) → Next s (create_qp d s req)
    unfolding create_qp
    create_qp-Next s req = elim (Option-cases (query s.opened_nics req.nic_id)) [
      | inl closed ↦ rw (closed, create_qp) (Follows_refl s)
      | inr (nic, opened) ↦
          rw (opened, create_qp)
            (elim (Option-cases (d.create nic req.config none)) [
              | inl failed ↦ rw failed tt
              | inr (rc, made) ↦ rw made (register_new-Follows s (to_string req.name) rc req.attr)
            ])
    ]

    abbrev NextReply : RCtrl d → Option (RcReply × RCtrl d) → Type 0
    NextReply s none = Unit {0}
    NextReply s (some r) = Follows s r.1

    reply_created-Next :
        (s : RCtrl d) (name : ByteBuffer) (o : Option (Option ℕ × RCtrl d))
        → Next s o
        → NextReply s (o >>= λ r. some (reply_created d name r))
    reply_created-Next s name none n = tt
    reply_created-Next s name (some (none, t)) n = n
    reply_created-Next s name (some (some key, t)) n = n

    rc_reply-Next : (s : RCtrl d) (req : RcReq) → NextReply s (rc_reply d s req)
    unfolding rc_reply
    rc_reply-Next s req = elim (Bool-cases (req.whether_create == 0)) [
      | inl zero_asked ↦ rw (zero_asked, rc_reply) (Follows_refl s)
      | inr other ↦
          rw (other, rc_reply)
            (elim (Bool-cases (req.whether_create == 1)) [
              | inl create ↦
                  rw create
                    (reply_created-Next s req.name (create_qp d s req) (create_qp-Next s req))
              | inr look ↦ rw look (Follows_refl s)
            ])
    ]

    -- an exception of the reply is one of `create_qp`
    rc_reply-none : (s : RCtrl d) (req : RcReq) → rc_reply d s req ≡ none → create_qp d s req ≡ none
    unfolding rc_reply
    rc_reply-none s req e = elim (Option-cases (create_qp d s req)) [
      | inl threw ↦ threw
      | inr (r, made) ↦ elim (Bool-cases (req.whether_create == 0)) [
        | inl z ↦
            let same : rc_reply d s req ≡ some (rc_status wrong_arg, s) = rw (z, rc_reply) refl in
            absurd (none≢some (sym e ∙ same))
        | inr nz ↦ elim (Bool-cases (req.whether_create == 1)) [
          | inl create ↦
              let same : rc_reply d s req ≡ some (reply_created d req.name r) =
                rw (nz, rc_reply) (rw create (rw made refl)) in
              absurd (none≢some (sym e ∙ same))
          | inr look ↦
              let same : rc_reply d s req ≡ some (fetch_qp_attr_reply d s req.name 0, s) =
                rw (nz, rc_reply) (rw look refl) in
              absurd (none≢some (sym e ∙ same))
        ]
      ]
    ]

    -- and one of `register_new` is one of `connect`
    register_new-throws :
        (s : RCtrl d) (name : ByteBuffer) (rc : d.Rc) (attr : QpAttr)
        → find name s.registered_qps ≡ none
        → register_new d s name rc attr ≡ none
        → d.connect rc attr ≡ none
    register_new-throws s name rc attr free e = elim (Option-cases (d.connect rc attr)) [
      | inl throws ↦ throws
      | inr (x, connected) ↦ absurd (
          none≢some (
            sym e
            ∙ register_new-free d s name rc attr free
            ∙ connect_new-result d s s.registered_qps name rc (s.keys s.drawn) (s.drawn + 1) attr x
                connected))
    ]

    left_behind-Follows :
        (s : RCtrl d) (req : RcReq) → create_qp d s req ≡ none → Follows s (left_behind d s req)
    unfolding left_behind
    left_behind-Follows s req e = elim (Option-cases (query s.opened_nics req.nic_id)) [
      | inl closed ↦ rw (closed, left_behind) (Follows_refl s)
      | inr (nic, opened) ↦
          rw (opened, left_behind)
            (elim (Option-cases (d.create nic req.config none)) [
              | inl failed ↦ rw failed (Follows_refl s)
              | inr (rc, made) ↦ rw made (
                  registered-Follows s (to_string req.name) rc (λ (h : Sound s) free.
                    connects nic req.config rc req.attr (h.opened req.nic_id nic opened) made (
                      register_new-throws s (to_string req.name) rc req.attr free
                        (sym (create_qp-eq-register_new d s req nic rc opened made) ∙ e))))
            ])
    ]
      where
        registered-Follows :
            (s : RCtrl d) (name : ByteBuffer) (rc : d.Rc)
            → (Sound s → find name s.registered_qps ≢ none)
            → Follows s (registered d s name rc)
        registered-Follows s name rc never =
            followed s (reg s.registered_qps name rc (s.keys s.drawn)).1 (s.drawn + 1) (omega arith)
              (λ g (h : Sound s). elim (Option-cases (find name s.registered_qps)) [
                | inl free ↦ absurd (never h free)
                | inr (x, taken) ↦
                    rw (reg_taken s.registered_qps name rc (s.keys s.drawn) x taken)
                      (h.distinct, h.entries)
              ])

    rc_handler-Keeps : Keeps Follows Follows_refl Follows_trans (rc_handler d)
    unfolding rc_handler
    rc_handler-Keeps s b = elim (Option-cases (dedump rc_req_layout b)) [
      | inl bad ↦ rw (bad, rc_handler) (Follows_refl s)
      | inr (req, decoded) ↦
          rw (decoded, rc_handler)
            (by_reply req (rc_reply d s req) (rc_reply-Next s req) (rc_reply-none s req))
    ]
      where
        by_reply :
            (req : RcReq) (o : Option (RcReply × RCtrl d))
            → NextReply s o
            → (o ≡ none → create_qp d s req ≡ none)
            → Follows s
                (elim o as (λ _. Option ByteBuffer × RCtrl d) [
                  | none ↦ (none, left_behind d s req)
                  | some (reply, s') ↦ (some (dump rc_reply_layout reply), s')
                ]).1
        by_reply req none n threw = left_behind-Follows s req (threw refl)
        by_reply req (some (reply, t)) n threw = n

    delete_rc_reply-Follows :
        (s : RCtrl d) (req : DelRcReq)
        → Follows s (record s { registered_qps = (delete_rc_reply d s.registered_qps req).1 })
    unfolding delete_rc_reply
    delete_rc_reply-Follows s req =
        rw (deleted-store (dereg s.registered_qps (to_string req.name) req.key)) (
          followed s (dereg s.registered_qps (to_string req.name) req.key).1 s.drawn (omega arith)
            (λ g (h : Sound s). (
              dereg-Distinct s.registered_qps (to_string req.name) req.key h.distinct,
              dereg-AllEntries P G s.registered_qps (to_string req.name) req.key h.entries,
            )))
      where
        deleted-store : (x : Option d.Rc × Store ByteBuffer d.Rc) → (deleted d x).1 ≡ x.1
        deleted-store (none, store) = refl
        deleted-store (some rc, store) = refl

    delete_rc-Keeps : Keeps Follows Follows_refl Follows_trans (delete_rc d)
    unfolding delete_rc
    delete_rc-Keeps s b = elim (Option-cases (dedump del_rc_req_layout b)) [
      | inl bad ↦ rw (bad, delete_rc) (Follows_refl s)
      | inr (req, decoded) ↦ rw (decoded, delete_rc) (delete_rc_reply-Follows s req)
    ]

    fetch_mr_handler-Keeps : Keeps Follows Follows_refl Follows_trans (fetch_mr_handler d)
    unfolding fetch_mr_handler
    fetch_mr_handler-Keeps s b = elim (Option-cases (dedump mr_req_layout b)) [
      | inl bad ↦ rw (bad, fetch_mr_handler) (Follows_refl s)
      | inr (req, decoded) ↦
          rw (decoded, fetch_mr_handler)
            (elim (Option-cases (query s.registered_mrs req.id)) [
              | inl missing ↦ rw missing (Follows_refl s)
              | inr (mr, found) ↦ rw found (Follows_refl s)
            ])
    ]

    fetch_qp_attr_wrapper-Keeps : Keeps Follows Follows_refl Follows_trans (fetch_qp_attr_wrapper d)
    unfolding fetch_qp_attr_wrapper
    fetch_qp_attr_wrapper-Keeps s b = elim (Option-cases (dedump qp_req_layout b)) [
      | inl bad ↦ rw (bad, fetch_qp_attr_wrapper) (Follows_refl s)
      | inr (req, decoded) ↦ rw (decoded, fetch_qp_attr_wrapper) (Follows_refl s)
    ]

    fetch_dc_attr_wrapper-Keeps : Keeps Follows Follows_refl Follows_trans (fetch_dc_attr_wrapper d)
    unfolding fetch_dc_attr_wrapper
    fetch_dc_attr_wrapper-Keeps s b = elim (Option-cases (dedump qp_req_layout b)) [
      | inl bad ↦ rw (bad, fetch_dc_attr_wrapper) (Follows_refl s)
      | inr (req, decoded) ↦ rw (decoded, fetch_dc_attr_wrapper) (Follows_refl s)
    ]

    -- Every handler of the server keeps the registries sound, whatever bytes it is given.
    pub handlers-AllKeep : AllKeep Follows Follows_refl Follows_trans (handlers d)
    unfolding handlers
    handlers-AllKeep =
        let add = register_handler-AllKeep Follows Follows_refl Follows_trans in
        add _ fetch_dc_attr (fetch_dc_attr_wrapper d)
          (add _ fetch_qp_attr (fetch_qp_attr_wrapper d)
            (add _ Proto.delete_rc (delete_rc d)
              (add _ create_rc (rc_handler d)
                (add _ fetch_mr (fetch_mr_handler d)
                  (new_factory-AllKeep Follows Follows_refl Follows_trans) fetch_mr_handler-Keeps)
                rc_handler-Keeps)
              delete_rc-Keeps)
            fetch_qp_attr_wrapper-Keeps)
          fetch_dc_attr_wrapper-Keeps
