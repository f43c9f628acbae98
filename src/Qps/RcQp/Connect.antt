-- ===== src/Qps/RcQp/Connect.antt =====
-- Connecting an `RC` of core/qps/rc.hh.
use rlibv.Base.{
  none≢some, false≢true, ◌≡◌, refl, sym, ap, ◌∙◌, true, false, Option, none, some, ◌⊎◌, inl, inr,
  if◌then◌else◌, Option-cases, Bool-cases, arith,
}
use mathlib.Core.Option.{some_inj}
use mathlib.Core.Path.{subst}
use rlibv.Base.Text.{codes}
use rlibv.Result.{Result, make_ok, make_err, is_ok}
use rlibv.Marshal.{ByteBuffer}
use rlibv.Config.{QpConfig}
use rlibv.Proto.{QpAttr}
use rlibv.Verbs.{Verbs, Documented, QpState, qps_rts}
use rlibv.Qps.Dummy.{valid, valid_parts, valid_lem, qp_status-valid, qp_status-invalid}
use rlibv.Qps.Impl.{modified, bring_rc_to_rcv, bring_rc_to_send}
use rlibv.Qps.RcQp.{RcQp, is_rts, my_attr, with_qp, sending, receiving, really_connect, connect}

module _ (v : Verbs) where
  -- The queue pair is there and ready to send.
  pub record Rts (q : RcQp v) : Type 0 where
    pub qp : v.Qp
    pub is_valid : valid v q.dummy ≡ true
    pub has_qp : q.dummy.qp ≡ some qp
    pub rts : v.query_qp qp ≡ some qps_rts

  is_rts_lem : (s : QpState) → is_rts s ≡ true → s ≡ qps_rts
  is_rts_lem s h = ground (arith, h)

  modified-ok :
      (r : Option ByteBuffer × v.Qp) (res : Result ByteBuffer) (qp : v.Qp)
      → modified v r ≡ (res, qp)
      → is_ok res ≡ true
      → r ≡ (none, qp)
  unfolding modified
  modified-ok (none, q) res qp e h = ap (λ (p : Result ByteBuffer × v.Qp). (none, p.1)) e
  modified-ok (some why, q) res qp e h =
      absurd (false≢true (ap (λ (p : Result ByteBuffer × v.Qp). is_ok p.0) e ∙ h))

  bring_rc_to_send-ok :
      Documented v
      → (qp qp' : v.Qp) (config : QpConfig) (res : Result ByteBuffer)
      → bring_rc_to_send v qp config ≡ (res, qp')
      → is_ok res ≡ true
      → v.query_qp qp' ≡ some qps_rts
  unfolding bring_rc_to_send
  bring_rc_to_send-ok doc qp qp' config res e h =
      doc.modified qp qp' _ _ (modified-ok (v.modify_qp qp _ _) res qp' e h)

  -- What a connection that is not refused before it starts comes to.
  abbrev pub Ended : RcQp v → Result ByteBuffer × RcQp v → Type 0
  Ended q (res, q') = ((is_ok res ≡ true) × Rts q') ⊎ ((is_ok res ≡ false) × (q'.state ≡ q.state))

  sending-Ended :
      Documented v
      → (q : RcQp v) (qp : v.Qp) (cq : v.Cq) → q.dummy.cq ≡ some cq
      → (r : Result ByteBuffer × v.Qp) → bring_rc_to_send v qp q.my_config ≡ r
      → Ended q (sending v q r)
  sending-Ended doc q qp cq c (res, qp') e = elim (Bool-cases (is_ok res)) [
    | inl good ↦ rw good (
        inl (
          refl,
          record {
            qp = qp';
            is_valid = valid_lem v _ qp' cq refl c;
            has_qp = refl;
            rts = bring_rc_to_send-ok doc qp qp' q.my_config res e good;
          },
        ))
    | inr bad ↦ rw bad (inr (bad, refl))
  ]

  receiving-Ended :
      Documented v
      → (q : RcQp v) (cq : v.Cq) → q.dummy.cq ≡ some cq
      → (r : Result ByteBuffer × v.Qp) → Ended q (receiving v q r)
  receiving-Ended doc q cq c (res, qp) = elim (Bool-cases (is_ok res)) [
    | inl good ↦ rw good (sending-Ended doc (with_qp v q qp) qp cq c _ refl)
    | inr bad ↦ rw bad (inr (bad, refl))
  ]

  really_connect-Ended :
      Documented v
      → (q q' : RcQp v) (attr : QpAttr) (res : Result ByteBuffer) (qp : v.Qp) (cq : v.Cq)
      → q.dummy.qp ≡ some qp
      → q.dummy.cq ≡ some cq
      → really_connect v q attr ≡ some (res, q')
      → Ended q (res, q')
  unfolding really_connect
  really_connect-Ended doc q q' attr res qp cq h c e = elim (Option-cases (my_attr v q)) [
    | inl no_attr ↦ absurd (none≢some (sym (rw (no_attr, really_connect) refl) ∙ e))
    | inr (mine, m) ↦
        let r = bring_rc_to_rcv v qp q.my_config attr mine.port_id in
        let same : receiving v q r ≡ (res, q') =
          some_inj.0 (sym (rw (m, really_connect) (rw h refl)) ∙ e) in
        subst (Ended q) same (receiving-Ended doc q cq c r)
  ]

  pub connect-invalid :
      (q : RcQp v) (attr : QpAttr)
      → valid v q.dummy ≡ false
      → connect v q attr ≡ some (make_err (codes "QP not valid"), q)
  unfolding connect
  connect-invalid q attr h = rw (qp_status-invalid v q.dummy h, connect) refl

  pub connect-queried :
      (q : RcQp v) (attr : QpAttr) (qp : v.Qp) (s : QpState)
      → valid v q.dummy ≡ true
      → q.dummy.qp ≡ some qp
      → v.query_qp qp ≡ some s
      → connect v q attr ≡ (
          if is_rts s
          then some (make_ok (codes "already connected"), q)
          else really_connect v q attr)
  unfolding connect
  connect-queried q attr qp s val h e = rw (qp_status-valid v q.dummy qp val h, connect) (rw e refl)

  connect-unqueried :
      (q : RcQp v) (attr : QpAttr) (qp : v.Qp)
      → valid v q.dummy ≡ true
      → q.dummy.qp ≡ some qp
      → v.query_qp qp ≡ none
      → connect v q attr ≡ none
  unfolding connect
  connect-unqueried q attr qp val h e = rw (qp_status-valid v q.dummy qp val h, connect) (rw e refl)

  pub connect-Rts :
      (q : RcQp v) (attr : QpAttr)
      → Rts q
      → connect v q attr ≡ some (make_ok (codes "already connected"), q)
  connect-Rts q attr r = connect-queried q attr r.qp qps_rts r.is_valid r.has_qp r.rts

  pub connect-Ended :
      Documented v
      → (q q' : RcQp v) (attr : QpAttr) (res : Result ByteBuffer)
      → connect v q attr ≡ some (res, q')
      → Ended q (res, q')
  connect-Ended doc q q' attr res e = elim (Bool-cases (valid v q.dummy)) [
    | inr bad ↦
        let same : ◌≡◌ {A = Result ByteBuffer × RcQp v} (make_err (codes "QP not valid"), q)
            (res, q') =
          some_inj.0 (sym (connect-invalid q attr bad) ∙ e) in
        subst (Ended q) same (inr (refl, refl))
    | inl val ↦
        let (qp, cq, h, c) = valid_parts v q.dummy val in
        elim (Option-cases (v.query_qp qp)) [
          | inl failed ↦ absurd (none≢some (sym (connect-unqueried q attr qp val h failed) ∙ e))
          | inr (s, queried) ↦ elim (Bool-cases (is_rts s)) [
            | inl ready ↦
                let r : Rts q = record {
                  qp = qp;
                  is_valid = val;
                  has_qp = h;
                  rts = queried ∙ ap some (is_rts_lem s ready);
                } in
                let same : ◌≡◌ {A = Result ByteBuffer × RcQp v}
                    (make_ok (codes "already connected"), q) (res, q') =
                  some_inj.0 (sym (connect-Rts q attr r) ∙ e) in
                subst (Ended q) same (inl (refl, r))
            | inr other ↦
                really_connect-Ended doc q q' attr res qp cq h c
                  (sym (connect-queried q attr qp s val h queried ∙ rw other refl) ∙ e)
          ]
        ]
  ]

  -- The verbs library does what is documented of it. A call of `connect` that returns either succeeds, and
  -- the queue pair is then valid and ready to send, and connecting it again, to any attributes, says so and
  -- changes nothing; or it fails, and what the queue pair keeps for its requests, whether it may send
  -- included, is as it was.
  pub connect-again :
      Documented v
      → (q q' : RcQp v) (attr again : QpAttr) (res : Result ByteBuffer)
      → connect v q attr ≡ some (res, q')
      → ((is_ok res ≡ true)
          × Rts q'
          × (connect v q' again ≡ some (make_ok (codes "already connected"), q')))
        ⊎ ((is_ok res ≡ false) × (q'.state ≡ q.state))
  connect-again doc q q' attr again res e = elim (connect-Ended doc q q' attr res e) [
    | inl (good, r) ↦ inl (good, r, connect-Rts q' again r)
    | inr failed ↦ inr failed
  ]
