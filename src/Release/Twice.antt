-- ===== src/Release/Twice.antt =====
-- What is given back twice by core/qps/dc.hh and core/qps/mod.hh.
use rlibv.Base.{
  Bool, if◌then◌else◌, ◌≡◌, refl, sym, ap, ◌∙◌, true, false, Option, none, some, List, [], ◌∷◌,
  ◌++◌, ◌⊎◌, inl, inr, ◌>>=◌, bind_some, none≢some, Bool-cases,
}
use mathlib.Core.Option.{some_inj}
use mathlib.Core.Path.{subst}
use rlibv.Result.{is_ok}
use rlibv.Config.{QpConfig, max_send_sz}
use rlibv.Verbs.{Verbs, qpt_rc}
use rlibv.Nic.{RNic}
use rlibv.Qps.Dummy.{Dummy, explicit_dummy, valid, valid_parts}
use rlibv.Qps.Impl.{Made, create_cq, create_qp, create_qp_ex, bring_qp_to_init}
use rlibv.Qps.RcQp.{RcQp}
use rlibv.Qps.RcQp
use rlibv.Qps.Dc.{Dc}
use rlibv.Qps.Dc
use rlibv.Release.{Freed, destroys_qp, destroys_cq, unless_null, dummy_dtor, dc_dtor}

module _ (v : Verbs) where
  -- The queue for receives of an `RC`, by the queue for its requests: both are set, or none is.
  abbrev Queues : Option v.Cq → Dummy v → Type 0
  Queues recv_cq q = (q.recv_cq ≡ recv_cq) ⊎ (q.cq ≡ none)

  rc_after_qp-Queues :
      (recv_cq : Option v.Cq) (q q' : RcQp v) (res : Made v.Qp)
      → Queues recv_cq q.dummy
      → RcQp.after_qp v q res ≡ some q'
      → Queues recv_cq q'.dummy
  unfolding RcQp.after_qp
  rc_after_qp-Queues recv_cq q q' res h e = elim (Bool-cases (is_ok res)) [
    | inl good ↦
        let go : v.Qp → Option (RcQp v) = λ qp.
          bring_qp_to_init v qp q.my_config q.dummy.nic >>= λ r. some (RcQp.after_init v q r) in
        let made : RcQp.after_qp v q res ≡ (res.desc.0 >>= go) = rw (good, RcQp.after_qp) refl in
        let (qp, has, e₁) = bind_some res.desc.0 go q' (sym made ∙ e) in
        let (r, initial, e₂) = bind_some (bring_qp_to_init v qp q.my_config q.dummy.nic) _ q' e₁ in
        subst (λ (p : RcQp v). Queues recv_cq p.dummy) (some_inj.0 e₂) h
    | inr bad ↦
        let same : RcQp.after_qp v q res ≡ some q = rw (bad, RcQp.after_qp) refl in
        subst (λ (p : RcQp v). Queues recv_cq p.dummy) (some_inj.0 (sym same ∙ e)) h
  ]

  rc_after_cq-Queues :
      (recv_cq : Option v.Cq) (q q' : RcQp v) (res : Made v.Cq)
      → q.dummy.cq ≡ none
      → RcQp.after_cq v q recv_cq res ≡ some q'
      → Queues recv_cq q'.dummy
  unfolding RcQp.after_cq
  rc_after_cq-Queues recv_cq q q' res h e = elim (Bool-cases (is_ok res)) [
    | inl good ↦
        let q₁ : RcQp v = record q {
          dummy = record q.dummy { cq = res.desc.0; recv_cq = recv_cq };
        } in
        let of_qp = create_qp v q.dummy.nic qpt_rc q.my_config res.desc.0 recv_cq in
        let made : RcQp.after_cq v q recv_cq res ≡ (of_qp >>= RcQp.after_qp v q₁) =
          rw (good, RcQp.after_cq) refl in
        let (r, _, e₁) = bind_some of_qp (RcQp.after_qp v q₁) q' (sym made ∙ e) in
        rc_after_qp-Queues recv_cq q₁ q' r (inl refl) e₁
    | inr bad ↦
        let same : RcQp.after_cq v q recv_cq res ≡ some q = rw (bad, RcQp.after_cq) refl in
        subst (λ (p : RcQp v). Queues recv_cq p.dummy) (some_inj.0 (sym same ∙ e)) (inr h)
  ]

  new-Queues :
      (nic : RNic v) (config : QpConfig) (recv_cq : Option v.Cq) (q : RcQp v)
      → RcQp.new v nic config recv_cq ≡ some q
      → Queues recv_cq q.dummy
  unfolding RcQp.new
  new-Queues nic config recv_cq q e =
      let (res, cq, e₁) = bind_some (create_cq v 0 nic (max_send_sz config)) _ q e in
      rc_after_cq-Queues recv_cq _ q res refl e₁

  -- The destructor of an `RC`, valid or not, that was constructed for a receive queue of the caller's, destroys
  -- this queue as its last step, unless its own completion queue could not be created. So the queue
  -- is destroyed twice where it is shared by two.
  pub dummy_dtor-recv_cq :
      (nic nic' : RNic v) (config config' : QpConfig) (shared cq cq' : v.Cq) (q q' : RcQp v)
      → RcQp.new v nic config (some shared) ≡ some q
      → RcQp.new v nic' config' (some shared) ≡ some q'
      → q.dummy.cq ≡ some cq
      → q'.dummy.cq ≡ some cq'
      → dummy_dtor v q.dummy ++ dummy_dtor v q'.dummy
        ≡ unless_null v destroys_qp q.dummy.qp
          ++ (destroys_cq cq
              ∷ destroys_cq shared
              ∷ (unless_null v destroys_qp q'.dummy.qp
                  ++ (destroys_cq cq' ∷ destroys_cq shared ∷ [])))
  unfolding dummy_dtor
  dummy_dtor-recv_cq nic nic' config config' shared cq cq' q q' made made' has has' =
      let first : dummy_dtor v q.dummy
          ≡ unless_null v destroys_qp q.dummy.qp ++ (destroys_cq cq ∷ destroys_cq shared ∷ []) =
        rw (has, given q.dummy cq has (new-Queues nic config (some shared) q made), dummy_dtor)
          refl in
      let second : dummy_dtor v q'.dummy
          ≡ unless_null v destroys_qp q'.dummy.qp ++ (destroys_cq cq' ∷ destroys_cq shared ∷ []) =
        rw
          (
            has',
            given q'.dummy cq' has' (new-Queues nic' config' (some shared) q' made'),
            dummy_dtor,
          )
          refl in
      rw (first, second) (both q.dummy.qp _)
    where
      given :
          (d : Dummy v) (c : v.Cq)
          → d.cq ≡ some c
          → Queues (some shared) d
          → d.recv_cq ≡ some shared
      given d c h (inl e) = e
      given d c h (inr no_cq) = absurd (none≢some (sym no_cq ∙ h))

      both :
          (o : Option v.Qp) (rest : List (Freed v))
          → (unless_null v destroys_qp o ++ (destroys_cq cq ∷ destroys_cq shared ∷ [])) ++ rest
            ≡ unless_null v destroys_qp o ++ (destroys_cq cq ∷ destroys_cq shared ∷ rest)
      both none rest = refl
      both (some qp) rest = refl

  all_true :
      (i r s : Bool) (q q' : Dc v)
      → (if i then (if r then (if s then some q else none) else none) else none) ≡ some q'
      → q ≡ q'
  all_true true true true q q' e = some_inj.0 e
  all_true true true false q q' e = absurd (none≢some e)
  all_true true false s q q' e = absurd (none≢some e)
  all_true false r s q q' e = absurd (none≢some e)

  dc_after_qp-recv_cq :
      (q q' : Dc v) (res : Made v.Qp)
      → Dc.after_qp v q res ≡ some q'
      → q'.dummy.recv_cq ≡ q.dummy.recv_cq
  unfolding Dc.after_qp Dc.to_ready
  dc_after_qp-recv_cq q q' res e = elim (Bool-cases (is_ok res)) [
    | inl good ↦
        let made : Dc.after_qp v q res ≡ (res.desc.0 >>= Dc.to_ready v q) =
          rw (good, Dc.after_qp) refl in
        let (qp, has, e₁) = bind_some res.desc.0 (Dc.to_ready v q) q' (sym made ∙ e) in
        let i = Dc.bring_dc_to_init v qp in
        let r = Dc.bring_dc_to_rtr v i.1 in
        let s = Dc.bring_dc_to_rts v r.1 in
        let ready : Dc v = record q { dummy = record q.dummy { qp = some s.1 } } in
        ap (λ (p : Dc v). p.dummy.recv_cq) (sym (all_true i.0 r.0 s.0 ready q' e₁))
    | inr bad ↦
        let same : Dc.after_qp v q res ≡ some q = rw (bad, Dc.after_qp) refl in
        ap (λ (p : Dc v). p.dummy.recv_cq) (sym (some_inj.0 (sym same ∙ e)))
  ]

  dc_after_cq-recv_cq :
      (q q' : Dc v) (res : Made v.Cq)
      → Dc.after_cq v q none res ≡ some q'
      → q'.dummy.recv_cq ≡ q.dummy.recv_cq
  unfolding Dc.after_cq
  dc_after_cq-recv_cq q q' res e = elim (Bool-cases (is_ok res)) [
    | inl good ↦
        let q₁ : Dc v = record q { dummy = record q.dummy { cq = res.desc.0 } } in
        let of_qp = create_qp_ex v q.dummy.nic q.my_config res.desc.0 none in
        let made : Dc.after_cq v q none res ≡ (of_qp >>= Dc.after_qp v q₁) =
          rw (good, Dc.after_cq) refl in
        let (r, _, e₁) = bind_some of_qp (Dc.after_qp v q₁) q' (sym made ∙ e) in
        dc_after_qp-recv_cq q₁ q' r e₁
    | inr bad ↦
        let same : Dc.after_cq v q none res ≡ some q = rw (bad, Dc.after_cq) refl in
        ap (λ (p : Dc v). p.dummy.recv_cq) (sym (some_inj.0 (sym same ∙ e)))
  ]

  -- The destructor of a valid `DC` that `create` gave destroys its queue pair and its completion queue, and then
  -- the base class, whose pointers are not reset, destroys both again.
  pub dc_dtor-create :
      (nic : RNic v) (config : QpConfig) (q : Dc v)
      → Dc.create v nic config ≡ some (some q)
      → valid v q.dummy ≡ true
      → (qp : v.Qp) × (cq : v.Cq) × (q.dummy.qp ≡ some qp)
        × (dc_dtor v q ≡ destroys_qp qp ∷ destroys_cq cq ∷ destroys_qp qp ∷ destroys_cq cq ∷ [])
  unfolding Dc.create Dc.new dc_dtor dummy_dtor
  dc_dtor-create nic config q e val =
      let after = λ (q : Dc v). some (some q) in
      let (p, made, e₁) = bind_some (Dc.new v nic config none) after (some q) e in
      let base : Dc v = record {
        dummy = explicit_dummy v nic;
        my_config = config;
        out_signaled = 0;
      } in
      let (r, _, e₂) =
        bind_some (create_cq v 0 nic (max_send_sz config)) (Dc.after_cq v base none) p made in
      let no_recv : q.dummy.recv_cq ≡ none =
        ap (λ (p : Dc v). p.dummy.recv_cq) (sym (some_inj.0 (some_inj.0 e₁)))
        ∙ dc_after_cq-recv_cq base p r e₂ in
      let (qp, cq, has_qp, has_cq) = valid_parts v q.dummy val in
      (qp, cq, has_qp, rw (has_qp, has_cq, no_recv, dc_dtor, dummy_dtor) refl)
