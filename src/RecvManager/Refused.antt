-- ===== src/RecvManager/Refused.antt =====
-- Requests to core/qps/rc_recv_manager.hh that create nothing, or stop half-way.
use rlibv.Base.{
  none≢some, ◌>>=◌, ℕ, ◌+◌, ◌≡◌, ◌≢◌, refl, sym, ap, ◌∙◌, Option, none, some, arith, false, ◌==◌,
  ◌⊎◌, inl, inr, ℕ_discrete, Option-cases, Bool-cases,
}
use mathlib.Core.Option.{some_inj}
use rlibv.Base.Keys.{nat_eq, string_eq}
use rlibv.Result.{make_ok, is_ok}
use rlibv.Marshal.{ByteBuffer}
use rlibv.Factory.{find, query}
use rlibv.Factory.Laws.{query-eq-find}
use rlibv.Proto.{ok, status_code, to_string, QpAttr, RcReq, RcReply}
use rlibv.RCtrl.{
  Devices, RCtrl, register_new, fetch_qp_attr_reply, create_qp, reply_created, rc_reply,
  connect_new, registered,
}
use rlibv.RCtrl.Registered.{fetch_qp_attr_reply-found}
use rlibv.RCtrl.CreateDelete.{
  find_head, register_new-free, register_new-taken, connect_new-result, created,
  create_qp-eq-register_new, rc_reply-create,
}
use rlibv.Qps.RecvEntries.{Allocator}
use rlibv.RecvManager.{
  Managed, Outcome, replied, threw, recv_cq_for, with_recvs, after_connect, create_msg_qp,
  msg_rc_reply,
}
use rlibv.RecvManager.Created.{with_qp, create_msg_qp-connected, msg_rc_reply-create}

module _ (d : Devices) {A : Type 0} (alloc_one : ℕ → Allocator A) (depth : ℕ) where
  -- A request for a queue pair with a receive queue that is not registered throws behind the connection: the
  -- client learns no key, and the queue pair stays registered, with the key that deletes it.
  pub msg_rc_reply_unregistered :
      (m : Managed d A) (req : RcReq) (nic : d.Nic) (rc rc' : d.Rc) (desc : ByteBuffer)
      → req.whether_create ≡ 1
      → query m.ctrl.opened_nics req.nic_id ≡ some nic
      → query m.reg_recv_cqs (to_string req.name_recv) ≡ none
      → d.create nic req.config none ≡ some rc
      → find (to_string req.name) m.ctrl.registered_qps ≡ none
      → d.connect rc req.attr ≡ some (make_ok desc, rc')
      → (m' : Managed d A) × (msg_rc_reply d alloc_one depth m req ≡ threw m')
        × (find (to_string req.name) m'.ctrl.registered_qps ≡ some (rc', m.ctrl.keys m.ctrl.drawn))
  unfolding with_recvs recv_cq_for
  msg_rc_reply_unregistered m req nic rc rc' desc h opened unknown made free connected = (
    with_qp d alloc_one depth m (to_string req.name) rc',
    create_msg_qp-connected d alloc_one depth m req nic rc rc' desc h opened
          (ap (d.create nic req.config) no_queue ∙ made) free connected
        ∙ rw (unknown, with_recvs) refl,
    find_head (to_string req.name) rc' (m.ctrl.keys m.ctrl.drawn) m.ctrl.registered_qps,
  )
    where
      no_queue : recv_cq_for d alloc_one depth m req ≡ none
      no_queue = ground (arith, unknown)

  -- What registering leaves is none, or a queue pair that is found.
  register_new-cases :
      (s : RCtrl d) (name : ByteBuffer) (rc : d.Rc) (attr : QpAttr)
      → (register_new d s name rc attr ≡ none)
        ⊎ (((s' : RCtrl d) × (register_new d s name rc attr ≡ some (none, s')))
            ⊎ ((key : ℕ) × (rc' : d.Rc) × (register_new d s name rc attr
                  ≡ some (some key, created d s name rc'))))
  unfolding connect_new
  register_new-cases s name rc attr = elim (Option-cases (find name s.registered_qps)) [
    | inl free ↦ elim (Option-cases (d.connect rc attr)) [
      | inl throws ↦
          inl (rw (register_new-free d s name rc attr free) (rw (throws, connect_new) refl))
      | inr (x, connected) ↦
          let same =
            register_new-free d s name rc attr free
            ∙ connect_new-result d s s.registered_qps name rc (s.keys s.drawn) (s.drawn + 1) attr x
                connected in
          inr (elim (Bool-cases (is_ok x.0)) [
            | inl good ↦ inr (s.keys s.drawn, x.1, same ∙ rw good refl)
            | inr bad ↦ inl (record s { drawn = s.drawn + 1 }, same ∙ rw bad refl)
          ])
    ]
    | inr (x, taken) ↦ inr (inl (s, register_new-taken d s name rc attr x taken))
  ]

  abbrev reply_by : RcReq → Option (Option ℕ × RCtrl d) → Option (RcReply × RCtrl d)
  reply_by req o = o >>= λ x. some (reply_created d req.name x)

  refused_status :
      (s s' : RCtrl d) (req : RcReq) (r : RcReply) (nic : d.Nic)
      → req.whether_create ≡ 1
      → query s.opened_nics req.nic_id ≡ some nic
      → d.create nic req.config none ≡ none
      → rc_reply d s req ≡ none
  unfolding create_qp
  refused_status s s' req r nic h opened unmade =
      rc_reply-create d s req h ∙ (rw (opened, create_qp) (rw unmade refl))

  made_reply :
      (s s' : RCtrl d) (req : RcReq) (r : RcReply) (nic : d.Nic) (rc : d.Rc)
      → req.whether_create ≡ 1
      → query s.opened_nics req.nic_id ≡ some nic
      → d.create nic req.config none ≡ some rc
      → rc_reply d s req ≡ some (r, s')
      → reply_by req (register_new d s (to_string req.name) rc req.attr) ≡ some (r, s')
  made_reply s s' req r nic rc h opened made replies =
      sym
        (rc_reply-create d s req h ∙ rw (create_qp-eq-register_new d s req nic rc opened made) refl)
      ∙ replies

  created_status :
      (s : RCtrl d) (name : ByteBuffer) (rc : d.Rc) (key : ℕ)
      → (fetch_qp_attr_reply d (created d s (to_string name) rc) name key).status ≡ status_code ok
  created_status s name rc key =
      ap (λ (r : RcReply). r.status)
        (fetch_qp_attr_reply-found d (created d s (to_string name) rc) name key rc
          (query-eq-find _ _ _ (find_head (to_string name) rc (s.keys s.drawn) s.registered_qps)))

  -- what `create_msg_qp` makes of a registration
  abbrev outcome_by : Managed d A → RcReq → d.Rc → Option (Option ℕ × RCtrl d) → Outcome d A
  outcome_by m req rc none = threw (record m { ctrl = registered d m.ctrl (to_string req.name) rc })
  outcome_by m req rc (some x) = after_connect d alloc_one depth m req rc x

  -- what both make of it where nothing was registered
  same_failure :
      (m : Managed d A) (s' : RCtrl d) (req : RcReq) (r : RcReply) (rc : d.Rc)
      → r.status ≢ status_code ok
      → reply_by req (register_new d m.ctrl (to_string req.name) rc req.attr) ≡ some (r, s')
      → outcome_by m req rc (register_new d m.ctrl (to_string req.name) rc req.attr)
        ≡ replied r (record m { ctrl = s' })
  unfolding after_connect
  same_failure m s' req r rc failed e =
      elim (register_new-cases m.ctrl (to_string req.name) rc req.attr) [
        | inl throws ↦ absurd (none≢some (sym (ap (reply_by req) throws) ∙ e))
        | inr (inl (t, no_key)) ↦
            ap (outcome_by m req rc) no_key
            ∙ ap (λ (p : RcReply × RCtrl d). replied p.0 (record m { ctrl = p.1 }))
                (some_inj.0 (sym (ap (reply_by req) no_key) ∙ e))
        | inr (inr (key, rc', made)) ↦ absurd (
            failed (
              sym (
                ap (λ (p : RcReply × RCtrl d). p.0.status)
                  (some_inj.0 (sym (ap (reply_by req) made) ∙ e)))
              ∙ created_status m.ctrl req.name rc' key))
      ]

  recv_cq_for-unasked :
      (m : Managed d A) (req : RcReq)
      → req.whether_recv ≢ 1
      → recv_cq_for d alloc_one depth m req ≡ none
  unfolding recv_cq_for
  recv_cq_for-unasked m req h = ground (arith, h)

  refused_alike :
      (m : Managed d A) (s' : RCtrl d) (req : RcReq) (r : RcReply)
      → req.whether_recv ≢ 1
      → req.whether_create ≡ 1
      → r.status ≢ status_code ok
      → rc_reply d m.ctrl req ≡ some (r, s')
      → msg_rc_reply d alloc_one depth m req ≡ replied r (record m { ctrl = s' })
  unfolding create_msg_qp create_qp
  refused_alike m s' req r no_recv h failed replies =
      msg_rc_reply-create d alloc_one depth m req h
      ∙ elim (Option-cases (query m.ctrl.opened_nics req.nic_id)) [
        | inl closed ↦
            rw (closed, create_msg_qp)
              (ap (λ (p : RcReply × RCtrl d). replied p.0 (record m { ctrl = p.1 }))
                (some_inj.0
                  (sym (rc_reply-create d m.ctrl req h ∙ rw (closed, create_qp) refl) ∙ replies)))
        | inr (nic, opened) ↦ elim (Option-cases (d.create nic req.config none)) [
          | inl unmade ↦
              absurd
                (none≢some (sym (refused_status m.ctrl s' req r nic h opened unmade) ∙ replies))
          | inr (rc, made) ↦
              rw (opened, create_msg_qp)
                (rw (recv_cq_for-unasked m req no_recv) (
                  rw made (
                    same_failure m s' req r rc failed
                      (made_reply m.ctrl s' req r nic rc h opened made replies))))
        ]
      ]

  not_created :
      (m : Managed d A) (s' : RCtrl d) (req : RcReq) (r : RcReply)
      → req.whether_create ≢ 1
      → rc_reply d m.ctrl req ≡ some (r, s')
      → msg_rc_reply d alloc_one depth m req ≡ replied r (record m { ctrl = s' })
  unfolding msg_rc_reply rc_reply
  not_created m s' req r ne replies =
      let other : (req.whether_create == 1) ≡ false = ground (arith, ne) in
      let same = λ (p : RcReply × RCtrl d). replied p.0 (record m { ctrl = p.1 }) in
      elim (Bool-cases (req.whether_create == 0)) [
        | inl z ↦
            rw (z, msg_rc_reply) (ap same (some_inj.0 (sym (rw (z, rc_reply) refl) ∙ replies)))
        | inr z ↦
            rw (z, other, msg_rc_reply)
              (ap same (some_inj.0 (sym (rw (z, other, rc_reply) refl) ∙ replies)))
      ]

  -- Where no receive queue is asked for, and no queue pair is created (none is asked for, or the request is
  -- refused), the manager's handler gives the reply that the handler of `RCtrl` gives, and leaves the same
  -- registries.
  pub msg_rc_reply-eq-rc_reply :
      (m : Managed d A) (s' : RCtrl d) (req : RcReq) (r : RcReply)
      → req.whether_recv ≢ 1
      → (req.whether_create ≢ 1) ⊎ (r.status ≢ status_code ok)
      → rc_reply d m.ctrl req ≡ some (r, s')
      → msg_rc_reply d alloc_one depth m req ≡ replied r (record m { ctrl = s' })
  unfolding msg_rc_reply rc_reply
  msg_rc_reply-eq-rc_reply m s' req r no_recv why replies = elim (ℕ_discrete req.whether_create 1) [
    | yes h ↦ elim why [
      | inl ne ↦ absurd (ne h)
      | inr failed ↦ refused_alike m s' req r no_recv h failed replies
    ]
    | no ne ↦ not_created m s' req r ne replies
  ]
