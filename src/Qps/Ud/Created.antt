-- ===== src/Qps/Ud/Created.antt =====
-- The construction of a `UD` of core/qps/ud.hh ends with a queue pair that can send, or with none.
use mathlib.Core.Option.{some_inj}
use mathlib.Core.Path.{subst}
use rlibv.Base.{
  none≢some, false≢true, bind_some, ℕ, ◌≡◌, refl, sym, ap, ◌∙◌, true, Option, none, some, ◌⊎◌, inl,
  inr, if◌then◌else◌, ◌>>=◌, Bool-cases,
}
use rlibv.Result.{Result, is_ok}
use rlibv.Marshal.{ByteBuffer}
use rlibv.Config.{QpConfig, max_send_sz, max_recv_sz}
use rlibv.Verbs.{Verbs, Documented, qps_rts, qpt_ud}
use rlibv.Nic.{RNic}
use rlibv.Qps.Dummy.{valid, valid_parts, explicit_dummy}
use rlibv.Qps.Impl.{Made, create_cq, create_qp, bring_qp_to_init}
use rlibv.Qps.Ud.{
  Ud, succeeded, bring_ud_to_recv, bring_ud_to_send, with_qp, to_ready, after_init, after_qp,
  after_recv_cq, after_cq, new, create,
}

module _ (v : Verbs) where
  -- The queue pair is there and ready to send.
  pub record Ready (q : Ud v) : Type 0 where
    pub qp : v.Qp
    pub has_qp : q.dummy.qp ≡ some qp
    pub rts : v.query_qp qp ≡ some qps_rts

  abbrev pub Ended : Ud v → Type 0
  Ended q = (q.dummy.qp ≡ none) ⊎ Ready q

  succeeded_lem :
      (r : Option ByteBuffer × v.Qp) → (succeeded v r).0 ≡ true → r ≡ (none, (succeeded v r).1)
  succeeded_lem (none, qp) h = refl
  succeeded_lem (some why, qp) h = absurd (false≢true h)

  bring_ud_to_send-rts :
      Documented v
      → (qp : v.Qp) (psn : ℕ) → (bring_ud_to_send v qp psn).0 ≡ true
      → v.query_qp (bring_ud_to_send v qp psn).1 ≡ some qps_rts
  unfolding bring_ud_to_send
  bring_ud_to_send-rts doc qp psn h = doc.modified qp _ _ _ (succeeded_lem (v.modify_qp qp _ _) h)

  to_ready-Ready : Documented v → (q q' : Ud v) (qp : v.Qp) → to_ready v q qp ≡ some q' → Ready q'
  unfolding to_ready
  to_ready-Ready doc q q' qp e =
      let qp₁ = (bring_ud_to_recv v qp).1 in
      let r = bring_ud_to_send v qp₁ q.my_config.rq_psn in
      elim (Bool-cases (bring_ud_to_recv v qp).0) [
        | inr bad ↦
            let same : to_ready v q qp ≡ none = rw (bad, to_ready) refl in
            absurd (none≢some (sym same ∙ e))
        | inl good ↦ elim (Bool-cases r.0) [
          | inr bad ↦
              let same : to_ready v q qp ≡ none = rw (good, bad, to_ready) refl in
              absurd (none≢some (sym same ∙ e))
          | inl sent ↦
              let same : to_ready v q qp ≡ some (with_qp v q r.1) =
                rw (good, sent, to_ready) refl in
              let made : with_qp v q r.1 ≡ q' = some_inj.0 (sym same ∙ e) in
              subst Ready made (record {
                qp = r.1;
                has_qp = refl;
                rts = bring_ud_to_send-rts doc qp₁ q.my_config.rq_psn sent;
              })
        ]
      ]

  after_init-Ready :
      Documented v
      → (q q' : Ud v) (r : Result ByteBuffer × v.Qp) → after_init v q r ≡ some q'
      → Ready q'
  unfolding after_init
  after_init-Ready doc q q' (res, qp) e = elim (Bool-cases (is_ok res)) [
    | inl good ↦
        let same : after_init v q (res, qp) ≡ to_ready v q qp = rw (good, after_init) refl in
        to_ready-Ready doc q q' qp (sym same ∙ e)
    | inr bad ↦
        let same : after_init v q (res, qp) ≡ none = rw (bad, after_init) refl in
        absurd (none≢some (sym same ∙ e))
  ]

  after_qp-Ended :
      Documented v
      → (q q' : Ud v) (res : Made v.Qp) → q.dummy.qp ≡ none
      → after_qp v q res ≡ some q'
      → Ended q'
  unfolding after_qp
  after_qp-Ended doc q q' res no_qp e = elim (Bool-cases (is_ok res)) [
    | inl good ↦
        let go : v.Qp → Option (Ud v) =
          λ qp. bring_qp_to_init v qp q.my_config q.dummy.nic >>= after_init v q in
        let same : after_qp v q res ≡ (res.desc.0 >>= go) = rw (good, after_qp) refl in
        let (qp, _, e₁) = bind_some res.desc.0 go q' (sym same ∙ e) in
        let (r, _, e₂) =
          bind_some (bring_qp_to_init v qp q.my_config q.dummy.nic) (after_init v q) q' e₁ in
        inr (after_init-Ready doc q q' r e₂)
    | inr bad ↦
        let same : after_qp v q res ≡ some q = rw (bad, after_qp) refl in
        inl (ap (λ (p : Ud v). p.dummy.qp) (sym (some_inj.0 (sym same ∙ e))) ∙ no_qp)
  ]

  after_recv_cq-Ended :
      Documented v
      → (q q' : Ud v) (res : Made v.Cq) → q.dummy.qp ≡ none
      → after_recv_cq v q res ≡ some q'
      → Ended q'
  unfolding after_recv_cq
  after_recv_cq-Ended doc q q' res no_qp e = elim (Bool-cases (is_ok res)) [
    | inl good ↦
        let q₁ : Ud v = record q { dummy = record q.dummy { recv_cq = res.desc.0 } } in
        let made = create_qp v q.dummy.nic qpt_ud q.my_config q.dummy.cq res.desc.0 in
        let same : after_recv_cq v q res ≡ (made >>= after_qp v q₁) =
          rw (good, after_recv_cq) refl in
        let (r, _, e₁) = bind_some made (after_qp v q₁) q' (sym same ∙ e) in
        after_qp-Ended doc q₁ q' r no_qp e₁
    | inr bad ↦
        let same : after_recv_cq v q res ≡ some q = rw (bad, after_recv_cq) refl in
        inl (ap (λ (p : Ud v). p.dummy.qp) (sym (some_inj.0 (sym same ∙ e))) ∙ no_qp)
  ]

  after_cq-Ended :
      Documented v
      → (q q' : Ud v) (res : Made v.Cq) → q.dummy.qp ≡ none
      → after_cq v q res ≡ some q'
      → Ended q'
  unfolding after_cq
  after_cq-Ended doc q q' res no_qp e = elim (Bool-cases (is_ok res)) [
    | inl good ↦
        let q₁ : Ud v = record q { dummy = record q.dummy { cq = res.desc.0 } } in
        let made = create_cq v 1 q.dummy.nic (max_recv_sz q.my_config) in
        let same : after_cq v q res ≡ (made >>= after_recv_cq v q₁) = rw (good, after_cq) refl in
        let (r, _, e₁) = bind_some made (after_recv_cq v q₁) q' (sym same ∙ e) in
        after_recv_cq-Ended doc q₁ q' r no_qp e₁
    | inr bad ↦
        let same : after_cq v q res ≡ some q = rw (bad, after_cq) refl in
        inl (ap (λ (p : Ud v). p.dummy.qp) (sym (some_inj.0 (sym same ∙ e))) ∙ no_qp)
  ]

  -- The verbs library does what is documented of it. A `UD` that `create` gives is valid, and its queue pair
  -- of the library is ready to send.
  pub create-Ready :
      Documented v
      → (nic : RNic v) (config : QpConfig) (q : Ud v) → create v nic config ≡ some (some q)
      → (valid v q.dummy ≡ true) × Ready q
  unfolding create new
  create-Ready doc nic config q e =
      let after = λ (q : Ud v). some (if valid v q.dummy then some q else none) in
      let (p, made, e₁) = bind_some (new v nic config) after (some q) e in
      let base : Ud v = record { dummy = explicit_dummy v nic; my_config = config } in
      let (r, _, e₂) =
        bind_some (create_cq v 0 nic (max_send_sz config)) (after_cq v base) p made in
      elim (Bool-cases (valid v p.dummy)) [
        | inr bad ↦
            let same : ◌≡◌ {A = Option (Ud v)} none (some q) =
              some_inj.0 (sym (rw bad refl) ∙ e₁) in
            absurd (none≢some same)
        | inl good ↦
            let found : ◌≡◌ {A = Option (Ud v)} (some p) (some q) =
              some_inj.0 (sym (rw good refl) ∙ e₁) in
            let same : p ≡ q = some_inj.0 found in
            subst (λ (q : Ud v). (valid v q.dummy ≡ true) × Ready q) same
              (good, ready p good (after_cq-Ended doc base p r refl e₂))
      ]
    where
      ready : (p : Ud v) → valid v p.dummy ≡ true → Ended p → Ready p
      ready p good (inl no_qp) = absurd (none≢some (sym no_qp ∙ (valid_parts v p.dummy good).2))
      ready p good (inr r) = r
