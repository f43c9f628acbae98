-- ===== src/Qps/RcQp/Reachable.antt =====
-- The life of an `RC` of core/qps/rc.hh: it is created, connected, bound to memory, posts requests and polls
-- completions, in any order.
use mathlib.Core.Option.{some_inj}
use Prim.Native.Nat.{bit_and}
use rlibv.Base.{
  ◌==◌, none≢some, bind_some, false≢true, ℕ, ◌≡◌, refl, sym, ap, ◌∙◌, true, false, Option, none,
  some, ◌⊎◌, inl, inr, ◌>>=◌, Bool-cases,
}
use rlibv.Base.Text.{codes}
use mathlib.Core.Path.{subst}
use rlibv.Result.{Result, make_ok, is_ok}
use rlibv.Marshal.{ByteBuffer}
use rlibv.Config.{QpConfig, max_send_sz}
use rlibv.Proto.{QpAttr, RegAttr}
use rlibv.Verbs.{Verbs, Documented, qpt_rc}
use rlibv.Nic.{RNic}
use rlibv.Qps.Rc.{
  Rc, ReqDesc, ReqPayload, Sent, Poll, nothing, failed, completed, send_with, poll_rc_comp,
  poll_send_comp, encode_my_wr, bind_local_mr, bind_remote_mr,
}
use rlibv.Qps.Op.{execute, execute_batch}
use rlibv.Qps.Op
use rlibv.Qps.Dummy.{valid}
use rlibv.Qps.Impl.{Made, create_cq, create_qp, bring_qp_to_init}
use rlibv.Qps.RcQp.{RcQp, new_state, after_init, after_qp, after_cq, new, create, connect}
use rlibv.Qps.RcQp.Connect.{Rts, connect-Ended, connect-Rts}

-- No completion is of a request that failed: the device stops the queue pair at one.
abbrev pub Clean : Poll → Type 0
Clean nothing = Unit {0}
Clean (failed wc) = ⊥
Clean (completed wc) = wc.success ≡ true

execute-ready :
    (o : Op.Verbs) (refused : Option ByteBuffer) (op : Op.Op) (q : Rc) (flags id : ℕ)
    → (execute o refused op q flags id).qp.ready ≡ q.ready
unfolding execute execute_batch encode_my_wr
execute-ready o refused op q flags id = elim (Bool-cases (bit_and flags o.signaled == 0)) [
  | inl unsignaled ↦ rw unsignaled refl
  | inr signaled ↦ rw signaled refl
]

module _ (v : Verbs) where
  pub data Step : RcQp v → RcQp v → Type 0 where
    connects :
        {q q' : RcQp v} (attr : QpAttr) (res : Result ByteBuffer)
        → connect v q attr ≡ some (res, q')
        → Step q q'
    sends :
        {q : RcQp v} (signaled : ℕ) (refused : Option ByteBuffer) (desc : ReqDesc)
        (payload : ReqPayload) (local remote : RegAttr) (sent : Sent)
        → send_with signaled refused q.state desc payload local remote ≡ some sent
        → Step q (record q { state = sent.qp })
    executes :
        {q : RcQp v} (o : Op.Verbs) (refused : Option ByteBuffer) (op : Op.Op) (flags id : ℕ)
        → Step q (record q { state = (execute o refused op q.state flags id).qp })
    polls :
        {q : RcQp v} (p : Poll) → Clean p → Step q (record q { state = (poll_rc_comp q.state p).1 })
    binds_local :
        {q : RcQp v} (mr : RegAttr) → Step q (record q { state = bind_local_mr q.state mr })
    binds_remote :
        {q : RcQp v} (mr : RegAttr) → Step q (record q { state = bind_remote_mr q.state mr })

  pub data Reachable (nic : RNic v) (config : QpConfig) (recv_cq : Option v.Cq)
      : RcQp v → Type 0 where
    created :
        {q : RcQp v} → create v nic config recv_cq ≡ some (some q) → Reachable nic config recv_cq q
    later :
        {q q' : RcQp v}
        → Reachable nic config recv_cq q
        → Step q q'
        → Reachable nic config recv_cq q'

  send_with-ready :
      (signaled : ℕ) (refused : Option ByteBuffer) (q : Rc) (desc : ReqDesc) (payload : ReqPayload)
      (local remote : RegAttr) (sent : Sent)
      → send_with signaled refused q desc payload local remote ≡ some sent
      → q.ready ≡ true
  unfolding send_with
  send_with-ready signaled refused q desc payload local remote sent e = elim (Bool-cases q.ready) [
    | inl h ↦ h
    | inr h ↦ absurd (none≢some (sym (rw (h, send_with) refl) ∙ e))
  ]

  poll_rc_comp-ready : (q : Rc) (p : Poll) → (poll_rc_comp q p).1.ready ≡ q.ready
  unfolding poll_rc_comp poll_send_comp
  poll_rc_comp-ready q nothing = refl
  poll_rc_comp-ready q (failed wc) = refl
  poll_rc_comp-ready q (completed wc) = refl

  after_qp-state :
      (q q' : RcQp v) (res : Made v.Qp) → after_qp v q res ≡ some q' → q'.state ≡ q.state
  unfolding after_qp
  after_qp-state q q' res e = elim (Bool-cases (is_ok res)) [
    | inl good ↦
        let go : v.Qp → Option (RcQp v) =
          λ qp. bring_qp_to_init v qp q.my_config q.dummy.nic >>= λ r. some (after_init v q r) in
        let made : after_qp v q res ≡ (res.desc.0 >>= go) = rw (good, after_qp) refl in
        let (qp, has, e₁) = bind_some res.desc.0 go q' (sym made ∙ e) in
        let (r, init, e₂) = bind_some (bring_qp_to_init v qp q.my_config q.dummy.nic) _ q' e₁ in
        ap (λ (p : RcQp v). p.state) (sym (some_inj.0 e₂))
    | inr bad ↦
        let same : after_qp v q res ≡ some q = rw (bad, after_qp) refl in
        ap (λ (p : RcQp v). p.state) (sym (some_inj.0 (sym same ∙ e)))
  ]

  after_cq-state :
      (q q' : RcQp v) (recv_cq : Option v.Cq) (res : Made v.Cq)
      → after_cq v q recv_cq res ≡ some q'
      → q'.state ≡ q.state
  unfolding after_cq
  after_cq-state q q' recv_cq res e = elim (Bool-cases (is_ok res)) [
    | inl good ↦
        let q₁ : RcQp v = record q {
          dummy = record q.dummy { cq = res.desc.0; recv_cq = recv_cq };
        } in
        let of_qp = create_qp v q.dummy.nic qpt_rc q.my_config res.desc.0 recv_cq in
        let made : after_cq v q recv_cq res ≡ (of_qp >>= after_qp v q₁) =
          rw (good, after_cq) refl in
        let (r, _, e₁) = bind_some of_qp (after_qp v q₁) q' (sym made ∙ e) in
        after_qp-state q₁ q' r e₁
    | inr bad ↦
        let same : after_cq v q recv_cq res ≡ some q = rw (bad, after_cq) refl in
        ap (λ (p : RcQp v). p.state) (sym (some_inj.0 (sym same ∙ e)))
  ]

  create-state :
      (nic : RNic v) (config : QpConfig) (recv_cq : Option v.Cq) (q : RcQp v)
      → create v nic config recv_cq ≡ some (some q)
      → q.state ≡ new_state
  unfolding create new
  create-state nic config recv_cq q e =
      let (p, made, e₁) = bind_some (new v nic config recv_cq) _ (some q) e in
      let (res, cq, e₂) = bind_some (create_cq v 0 nic (max_send_sz config)) _ p made in
      let state : p.state ≡ new_state = after_cq-state _ p recv_cq res e₂ in
      elim (Bool-cases (valid v p.dummy)) [
        | inl good ↦
            let same : some p ≡ some q = some_inj.0 (sym (rw good refl) ∙ e₁) in
            ap (λ (p : RcQp v). p.state) (sym (some_inj.0 same)) ∙ state
        | inr bad ↦
            let same : none ≡ some q = some_inj.0 (sym (rw bad refl) ∙ e₁) in
            absurd (none≢some same)
      ]

  -- An invariant of the life: what may send is ready to send.
  abbrev pub Sendable : RcQp v → Type 0
  Sendable q = (q.state.ready ≡ false) ⊎ Rts v q

  moved : (q : RcQp v) (s : Rc) → Rts v q → Rts v (record q { state = s })
  moved q s r = record { qp = r.qp; is_valid = r.is_valid; has_qp = r.has_qp; rts = r.rts }

  Step-Sendable : Documented v → {q q' : RcQp v} → Step q q' → Sendable q → Sendable q'
  Step-Sendable doc {q} {q'} (connects attr res e) (inl idle) =
      elim (connect-Ended v doc q q' attr res e) [
        | inl (good, r) ↦ inr r
        | inr (bad, same) ↦ inl (ap (λ (s : Rc). s.ready) same ∙ idle)
      ]
  Step-Sendable doc {q} {q'} (connects attr res e) (inr r) =
      let same : ◌≡◌ {A = Result ByteBuffer × RcQp v} (make_ok (codes "already connected"), q)
          (res, q') =
        some_inj.0 (sym (connect-Rts v q attr r) ∙ e) in
      inr (subst (Rts v) (ap (λ (p : Result ByteBuffer × RcQp v). p.1) same) r)
  Step-Sendable doc {q} (sends signaled refused desc payload local remote sent e) (inl idle) =
      absurd (
        false≢true
          (sym idle ∙ send_with-ready signaled refused q.state desc payload local remote sent e))
  Step-Sendable doc {q} (sends signaled refused desc payload local remote sent e) (inr r) =
      inr (moved q sent.qp r)
  Step-Sendable doc {q} (polls p clean) (inl idle) = inl (poll_rc_comp-ready q.state p ∙ idle)
  Step-Sendable doc {q} (executes o refused op flags id) (inl idle) =
      inl (execute-ready o refused op q.state flags id ∙ idle)
  Step-Sendable doc {q} (executes o refused op flags id) (inr r) =
      inr (moved q (execute o refused op q.state flags id).qp r)
  Step-Sendable doc {q} (polls p clean) (inr r) = inr (moved q (poll_rc_comp q.state p).1 r)
  Step-Sendable doc {q} (binds_local mr) (inl idle) = inl (unfold bind_local_mr in idle)
  Step-Sendable doc {q} (binds_local mr) (inr r) = inr (moved q (bind_local_mr q.state mr) r)
  Step-Sendable doc {q} (binds_remote mr) (inl idle) = inl (unfold bind_remote_mr in idle)
  Step-Sendable doc {q} (binds_remote mr) (inr r) = inr (moved q (bind_remote_mr q.state mr) r)

  reachable-Sendable :
      Documented v
      → (nic : RNic v) (config : QpConfig) (recv_cq : Option v.Cq) {q : RcQp v}
      → Reachable nic config recv_cq q
      → Sendable q
  unfolding new_state
  reachable-Sendable doc nic config recv_cq {q} (created e) =
      inl (ap (λ (s : Rc). s.ready) (create-state nic config recv_cq q e) ∙ idle)
    where
      idle : new_state.ready ≡ false
      idle = refl
  reachable-Sendable doc nic config recv_cq (later before s) =
      Step-Sendable doc s (reachable-Sendable doc nic config recv_cq before)

  -- The verbs library does what is documented of it, and the device's queue pair changes its state by the library's
  -- calls alone. A queue pair was created, and then connected, bound to memory, given requests by `send_normal`
  -- and by `Op::execute`, which does not test whether it is ready, and polled, all in any order, and no completion
  -- was of a request that failed. Then `send_normal` posts a request only if it is valid and its queue pair
  -- of the library is ready to send.
  pub sent-Rts :
      Documented v
      → (nic : RNic v) (config : QpConfig) (recv_cq : Option v.Cq) (q : RcQp v)
      → Reachable nic config recv_cq q
      → (signaled : ℕ) (refused : Option ByteBuffer) (desc : ReqDesc) (payload : ReqPayload)
        (local remote : RegAttr) (sent : Sent)
      → send_with signaled refused q.state desc payload local remote ≡ some sent
      → Rts v q
  sent-Rts doc nic config recv_cq q reachable signaled refused desc payload local remote sent e =
      elim (reachable-Sendable doc nic config recv_cq reachable) [
        | inl idle ↦ absurd (
            false≢true (
              sym idle ∙ send_with-ready signaled refused q.state desc payload local remote sent e))
        | inr r ↦ r
      ]
