-- ===== src/Qps/Dc/Created.antt =====
-- What core/qps/dc.hh constructs, and how a `DC` waits.
use mathlib.Core.Option.{some_inj}
use mathlib.Core.Path.{subst}
use rlibv.Base.{
  none≢some, false≢true, bind_some, ◌+◌, ◌-◌, ◌%◌, ◌≡◌, refl, sym, ap, ◌∙◌, true, Option, none,
  some, List, [], ◌∷◌, ◌⊎◌, inl, inr, ◌>>=◌, Bool-cases, u32_mod,
}
use rlibv.Result.{is_ok}
use rlibv.Marshal.{ByteBuffer}
use rlibv.Config.{Access, QpConfig, max_send_sz}
use rlibv.Verbs.{Verbs, Documented, qps_rts}
use rlibv.Nic.{RNic}
use rlibv.Qps.Rc.{Rc, Wc, Poll, nothing, failed, completed, poll_send_comp}
use rlibv.Qps.Rc
use rlibv.Qps.Dummy.{explicit_dummy}
use rlibv.Qps.Impl.{Made, made, create_cq, create_qp_ex}
use rlibv.Qps.Dc.{
  Dc, DcTarget, succeeded, bring_dc_to_init, bring_dc_to_rtr, bring_dc_to_rts, to_ready, after_qp,
  after_cq, new, create, wait_one_comp, new_target, create_target, after_target_cq,
}

module _ (v : Verbs) where
  -- The queue pair is there and ready to send.
  pub record Ready (q : Dc v) : Type 0 where
    pub qp : v.Qp
    pub has_qp : q.dummy.qp ≡ some qp
    pub rts : v.query_qp qp ≡ some qps_rts

  abbrev pub Ended : Dc v → Type 0
  Ended q = (q.dummy.qp ≡ none) ⊎ Ready q

  succeeded_lem :
      (r : Option ByteBuffer × v.Qp) → (succeeded v r).0 ≡ true → r ≡ (none, (succeeded v r).1)
  succeeded_lem (none, qp) h = refl
  succeeded_lem (some why, qp) h = absurd (false≢true h)

  bring_dc_to_rts-rts :
      Documented v
      → (qp : v.Qp) → (bring_dc_to_rts v qp).0 ≡ true
      → v.query_qp (bring_dc_to_rts v qp).1 ≡ some qps_rts
  unfolding bring_dc_to_rts
  bring_dc_to_rts-rts doc qp h =
      doc.exp_modified qp _ _ _ (succeeded_lem (v.exp_modify_qp qp _ _) h)

  to_ready-Ready : Documented v → (q q' : Dc v) (qp : v.Qp) → to_ready v q qp ≡ some q' → Ready q'
  unfolding to_ready
  to_ready-Ready doc q q' qp e =
      let i = bring_dc_to_init v qp in
      let r = bring_dc_to_rtr v i.1 in
      let s = bring_dc_to_rts v r.1 in
      elim (Bool-cases i.0) [
        | inr bad ↦
            let same : to_ready v q qp ≡ none = rw (bad, to_ready) refl in
            absurd (none≢some (sym same ∙ e))
        | inl initial ↦ elim (Bool-cases r.0) [
          | inr bad ↦
              let same : to_ready v q qp ≡ none = rw (initial, bad, to_ready) refl in
              absurd (none≢some (sym same ∙ e))
          | inl received ↦ elim (Bool-cases s.0) [
            | inr bad ↦
                let same : to_ready v q qp ≡ none = rw (initial, received, bad, to_ready) refl in
                absurd (none≢some (sym same ∙ e))
            | inl sent ↦
                let ready : Dc v = record q { dummy = record q.dummy { qp = some s.1 } } in
                let same : to_ready v q qp ≡ some ready =
                  rw (initial, received, sent, to_ready) refl in
                subst Ready (some_inj.0 (sym same ∙ e))
                  (record { qp = s.1; has_qp = refl; rts = bring_dc_to_rts-rts doc r.1 sent })
          ]
        ]
      ]

  after_qp-Ended :
      Documented v
      → (q q' : Dc v) (res : Made v.Qp) → q.dummy.qp ≡ none
      → after_qp v q res ≡ some q'
      → Ended q'
  unfolding after_qp
  after_qp-Ended doc q q' res no_qp e = elim (Bool-cases (is_ok res)) [
    | inl good ↦
        let same : after_qp v q res ≡ (res.desc.0 >>= to_ready v q) = rw (good, after_qp) refl in
        let (qp, _, e₁) = bind_some res.desc.0 (to_ready v q) q' (sym same ∙ e) in
        inr (to_ready-Ready doc q q' qp e₁)
    | inr bad ↦
        let same : after_qp v q res ≡ some q = rw (bad, after_qp) refl in
        inl (ap (λ (p : Dc v). p.dummy.qp) (sym (some_inj.0 (sym same ∙ e))) ∙ no_qp)
  ]

  after_cq-Ended :
      Documented v
      → (q q' : Dc v) (recv_cq : Option v.Cq) (res : Made v.Cq) → q.dummy.qp ≡ none
      → after_cq v q recv_cq res ≡ some q'
      → Ended q'
  unfolding after_cq
  after_cq-Ended doc q q' recv_cq res no_qp e = elim (Bool-cases (is_ok res)) [
    | inl good ↦
        let q₁ : Dc v = record q { dummy = record q.dummy { cq = res.desc.0 } } in
        let of_qp = create_qp_ex v q.dummy.nic q.my_config res.desc.0 recv_cq in
        let same : after_cq v q recv_cq res ≡ (of_qp >>= after_qp v q₁) =
          rw (good, after_cq) refl in
        let (r, _, e₁) = bind_some of_qp (after_qp v q₁) q' (sym same ∙ e) in
        after_qp-Ended doc q₁ q' r no_qp e₁
    | inr bad ↦
        let same : after_cq v q recv_cq res ≡ some q = rw (bad, after_cq) refl in
        inl (ap (λ (p : Dc v). p.dummy.qp) (sym (some_inj.0 (sym same ∙ e))) ∙ no_qp)
  ]

  -- The verbs library does what is documented of it. A `DC` that `create` gives has a queue pair that is
  -- ready to send, or none at all.
  pub create-Ended :
      Documented v
      → (nic : RNic v) (config : QpConfig) (q : Dc v) → create v nic config ≡ some (some q)
      → (q.dummy.qp ≡ none) ⊎ Ready q
  unfolding create new
  create-Ended doc nic config q e =
      let after = λ (q : Dc v). some (some q) in
      let (p, made, e₁) = bind_some (new v nic config none) after (some q) e in
      let base : Dc v = record {
        dummy = explicit_dummy v nic;
        my_config = config;
        out_signaled = 0;
      } in
      let (r, _, e₂) =
        bind_some (create_cq v 0 nic (max_send_sz config)) (after_cq v base none) p made in
      subst Ended (some_inj.0 (some_inj.0 e₁)) (after_cq-Ended doc base p none r refl e₂)

  -- Where the first completion queue cannot be created on an opened NIC, both `create` give a value all the
  -- same: a `DC` without a queue pair, and a `DCTarget` whose pointers were never set.
  pub create_unusable :
      (a : Access) (nic : RNic v) (config : QpConfig) (ctx : v.Ctx) (why : ByteBuffer)
      → nic.ctx ≡ some ctx
      → v.create_cq 0 ctx (max_send_sz config) ≡ inl why
      → (q : Dc v) × (t : DcTarget v) × (create v nic config ≡ some (some q))
        × (q.dummy.qp ≡ none)
        × (create_target v a nic config ≡ some (some t))
        × (t.dct ≡ none)
        × (t.srq ≡ none)
  unfolding create new create_cq after_cq made create_target new_target after_target_cq
  create_unusable a nic config ctx why opened refused = (
    record { dummy = explicit_dummy v nic; my_config = config; out_signaled = 0 },
    record { dct = none; srq = none; my_config = config; remote_dct_attr = none },
    rw (opened, create_cq) (rw refused refl),
    refl,
    rw (opened, create_cq) (rw refused refl),
    refl,
    refl,
  )

  -- A `DC` waits as every queue pair does: with the same number of signaled requests and the same polls as
  -- an `RC`, its own `wait_one_comp` has the result of the shared one, and leaves the same number.
  pub wait_one_comp-eq :
      (q : Dc v) (r : Rc) (ps : List Poll)
      → q.out_signaled ≡ r.out_signaled
      → ((wait_one_comp v q ps).0 ≡ (Rc.wait_one_comp r ps).0)
        × ((wait_one_comp v q ps).1.out_signaled ≡ (Rc.wait_one_comp r ps).1.out_signaled)
  unfolding wait_one_comp Rc.wait_one_comp poll_send_comp
  wait_one_comp-eq q r [] h = (refl, h)
  wait_one_comp-eq q r (nothing ∷ ps) h = wait_one_comp-eq q r ps h
  wait_one_comp-eq q r (failed wc ∷ ps) h = (refl, h)
  wait_one_comp-eq q r (completed wc ∷ ps) h = (refl, ap (λ n. (n + (u32_mod - 1)) % u32_mod) h)
