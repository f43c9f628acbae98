-- ===== src/System/Connects.antt =====
-- Where `RC::connect` of core/qps/rc.hh returns: nothing throws, and no assertion fails, on a NIC that knows its
-- address and its lid.
use rlibv.Base.{
  ℕ, ◌≡◌, ◌≢◌, refl, sym, ap, ◌∙◌, Option, none, some, none≢some, bind_some, Option-cases, Bool,
  Bool-cases, true, false, inl, inr, if◌then◌else◌, ◌>>=◌,
}
use mathlib.Core.Option.{some_inj}
use mathlib.Core.Path.{subst}
use rlibv.Base.Text.{codes}
use rlibv.Result.{Result, is_ok, make_ok}
use rlibv.Marshal.{ByteBuffer}
use rlibv.Config.{QpConfig, max_send_sz}
use rlibv.Proto.{RAddress, QpAttr}
use rlibv.Verbs.{Verbs, qpt_rc}
use rlibv.Nic.{RNic}
use rlibv.Qps.Dummy.{valid, valid_parts, int_to_u64}
use rlibv.Qps.Impl.{Made, create_cq, create_qp, bring_qp_to_init, bring_rc_to_rcv}
use rlibv.Qps.RcQp.{
  RcQp, is_rts, after_init, after_qp, after_cq, new, create, my_attr, receiving, really_connect,
  connect,
}
use rlibv.Qps.RcQp.Connect.{connect-invalid, connect-queried}
use rlibv.System.{devices}

-- where a test chooses between a value and none
when_some :
    {A : Type 0} (b : Bool) (x y : A)
    → ◌≡◌ {A = Option A} (if b then some x else none) (some y)
    → x ≡ y
when_some true x y e = some_inj.0 e
when_some false x y e = absurd (none≢some e)

module _ (v : Verbs) where
  -- The address and the lid were found when the NIC was opened.
  pub record Known (nic : RNic v) : Type 0 where
    pub addr : RAddress
    pub has_addr : nic.addr ≡ some addr
    pub lid : ℕ
    pub has_lid : nic.lid ≡ some lid

  after_qp-nic :
      (q q' : RcQp v) (res : Made v.Qp) → after_qp v q res ≡ some q' → q'.dummy.nic ≡ q.dummy.nic
  unfolding after_qp
  after_qp-nic q q' res e = elim (Bool-cases (is_ok res)) [
    | inl good ↦
        let go : v.Qp → Option (RcQp v) =
          λ qp. bring_qp_to_init v qp q.my_config q.dummy.nic >>= λ r. some (after_init v q r) in
        let same : after_qp v q res ≡ (res.desc.0 >>= go) = rw (good, after_qp) refl in
        let (qp, _, e₁) = bind_some res.desc.0 go q' (sym same ∙ e) in
        let (r, _, e₂) =
          bind_some (bring_qp_to_init v qp q.my_config q.dummy.nic) (λ r. some (after_init v q r))
            q' e₁ in
        by_init r (some_inj.0 e₂)
    | inr bad ↦
        let same : after_qp v q res ≡ some q = rw (bad, after_qp) refl in
        ap (λ (p : RcQp v). p.dummy.nic) (some_inj.0 (sym e ∙ same))
  ]
    where
      by_init : (r : Result ByteBuffer × v.Qp) → after_init v q r ≡ q' → q'.dummy.nic ≡ q.dummy.nic
      by_init (ret, qp) made = ap (λ (p : RcQp v). p.dummy.nic) (sym made)

  after_cq-nic :
      (q q' : RcQp v) (recv_cq : Option v.Cq) (res : Made v.Cq)
      → after_cq v q recv_cq res ≡ some q'
      → q'.dummy.nic ≡ q.dummy.nic
  unfolding after_cq
  after_cq-nic q q' recv_cq res e = elim (Bool-cases (is_ok res)) [
    | inl good ↦
        let q₁ : RcQp v = record q {
          dummy = record q.dummy { cq = res.desc.0; recv_cq = recv_cq };
        } in
        let made = create_qp v q.dummy.nic qpt_rc q.my_config res.desc.0 recv_cq in
        let same : after_cq v q recv_cq res ≡ (made >>= after_qp v q₁) = rw (good, after_cq) refl in
        let (m, _, e₁) = bind_some made (after_qp v q₁) q' (sym same ∙ e) in after_qp-nic q₁ q' m e₁
    | inr bad ↦
        let same : after_cq v q recv_cq res ≡ some q = rw (bad, after_cq) refl in
        ap (λ (p : RcQp v). p.dummy.nic) (some_inj.0 (sym e ∙ same))
  ]

  create-nic :
      (nic : RNic v) (config : QpConfig) (recv_cq : Option v.Cq) (rc : RcQp v)
      → (devices v).create nic config recv_cq ≡ some rc
      → rc.dummy.nic ≡ nic
  unfolding create new
  create-nic nic config recv_cq rc e =
      let (o, e₁, e₂) = bind_some (create v nic config recv_cq) (λ q. q) rc e in
      let (q, e₃, e₄) = bind_some (new v nic config recv_cq) _ o e₁ in
      let same : q ≡ rc = when_some (valid v q.dummy) q rc (some_inj.0 e₄ ∙ e₂) in
      let (res, _, e₅) = bind_some (create_cq v 0 nic (max_send_sz config)) _ q e₃ in
      ap (λ (p : RcQp v). p.dummy.nic) (sym same) ∙ after_cq-nic _ q recv_cq res e₅

  really_connect-returns :
      (q : RcQp v) (attr : QpAttr) (qp : v.Qp)
      → q.dummy.qp ≡ some qp
      → Known q.dummy.nic
      → really_connect v q attr ≢ none
  unfolding really_connect my_attr
  really_connect-returns q attr qp has_qp known e =
      let same : really_connect v q attr
          ≡ some (receiving v q (bring_rc_to_rcv v qp q.my_config attr mine.port_id)) =
        rw (attr_known, really_connect) (rw has_qp refl) in
      none≢some (sym e ∙ same)
    where
      mine : QpAttr
      mine = record {
        addr = known.addr;
        lid = known.lid;
        psn = int_to_u64 q.my_config.rq_psn;
        port_id = q.dummy.nic.id.port_id;
        qpn = v.qp_num qp;
        qkey = 0;
      }

      attr_known : my_attr v q ≡ some mine
      attr_known = rw (known.has_addr, my_attr) (rw known.has_lid (rw has_qp refl))

  connect-returns :
      ((qp : v.Qp) → v.query_qp qp ≢ none)
      → (q : RcQp v) (attr : QpAttr) → Known q.dummy.nic
      → connect v q attr ≢ none
  connect-returns queries q attr known e = elim (Bool-cases (valid v q.dummy)) [
    | inr bad ↦ none≢some (sym e ∙ connect-invalid v q attr bad)
    | inl val ↦
        let (qp, cq, h, c) = valid_parts v q.dummy val in
        elim (Option-cases (v.query_qp qp)) [
          | inl failed ↦ queries qp failed
          | inr (s, queried) ↦
              let same = connect-queried v q attr qp s val h queried in
              elim (Bool-cases (is_rts s)) [
                | inl ready ↦
                    let here : connect v q attr ≡ some (make_ok (codes "already connected"), q) =
                      same ∙ rw ready refl in
                    none≢some (sym e ∙ here)
                | inr other ↦
                    really_connect-returns q attr qp h known (sym (same ∙ rw other refl) ∙ e)
              ]
        ]
  ]

  -- A queue pair that is created on a NIC that knows its address and its lid connects with an error or without,
  -- where no query of a queue pair's state fails.
  pub created-connects :
      ((qp : v.Qp) → v.query_qp qp ≢ none)
      → (nic : RNic v) (config : QpConfig) (rc : RcQp v) (attr : QpAttr) → Known nic
      → (devices v).create nic config none ≡ some rc
      → (devices v).connect rc attr ≢ none
  created-connects queries nic config rc attr known made =
      connect-returns queries rc attr (subst Known (sym (create-nic nic config none rc made)) known)
