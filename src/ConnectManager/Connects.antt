-- ===== src/ConnectManager/Connects.antt =====
-- Where `cc_rc` of core/lib.hh returns `Ok`, the local queue pair was connected.
use rlibv.Base.{
  ℕ, ◌≡◌, refl, sym, ap, ◌∙◌, Bool, true, false, false≢true, none≢some, Option, none, some, List,
  ◌⊎◌, inl, inr, ◌>>=◌, bind_some, Bool-cases, Option-cases, if◌then◌else◌, ◌==◌,
}
use mathlib.Core.Option.{some_inj}
use mathlib.Core.Path.{subst}
use rlibv.Result.{Result, is_ok}
use rlibv.Marshal.{ByteBuffer, dedump, dump}
use rlibv.Channel.{Event}
use rlibv.Config.{QpConfig}
use rlibv.Proto.{QpAttr, RcReply, rc_req_layout, rc_reply_layout, create_rc}
use rlibv.Srpc.Client.{SRpc, call, receive_reply}
use rlibv.RCtrl.{Devices}
use rlibv.ConnectManager.{
  Called, call_result, exchange, cc_rc, cc_result, cc_status, cc_connected, cc_caught, cc_err,
  cc_rc_req, too_long, at_once, err_name_too_long,
}

module _ (d : Devices) where
  -- A connection succeeds only where `connect` of the local queue pair did.
  abbrev pub ByConnect : d.Rc → Result (ByteBuffer × ℕ) × d.Rc → Type 0
  ByConnect rc r =
      (attr : QpAttr) × (res : Result ByteBuffer) × (d.connect rc attr ≡ some (res, r.1))
      × (is_ok res ≡ true)

  cc_connected-ok :
      (rc : d.Rc) (attr : QpAttr) (key : ℕ) (x : Result ByteBuffer × d.Rc)
      → d.connect rc attr ≡ some x
      → is_ok (cc_connected d key x).0 ≡ true
      → ByConnect rc (cc_connected d key x)
  cc_connected-ok rc attr key (ret, rc') e ok = elim (Bool-cases (is_ok ret)) [
    | inl good ↦ (attr, ret, e ∙ ap some (same good), good)
    | inr bad ↦ absurd (false≢true (sym (fails bad) ∙ ok))
  ]
    where
      same :
          is_ok ret ≡ true
          → ◌≡◌ {A = Result ByteBuffer × d.Rc} (ret, rc') (ret, (cc_connected d key (ret, rc')).1)
      same good = rw good refl

      fails : is_ok ret ≡ false → is_ok (cc_connected d key (ret, rc')).0 ≡ false
      fails bad = rw bad refl

  cc_caught-ok :
      (rc : d.Rc) (attr : QpAttr) (key : ℕ) (o : Option (Result ByteBuffer × d.Rc))
      → d.connect rc attr ≡ o
      → is_ok (cc_caught d key rc o).0 ≡ true
      → ByConnect rc (cc_caught d key rc o)
  cc_caught-ok rc attr key none e ok = absurd (false≢true ok)
  cc_caught-ok rc attr key (some x) e ok = cc_connected-ok rc attr key x e ok

  cc_status-ok :
      (rc : d.Rc) (reply : RcReply)
      → is_ok (cc_status d rc reply).0 ≡ true
      → ByConnect rc (cc_status d rc reply)
  unfolding cc_status
  cc_status-ok rc reply ok = elim (Bool-cases (reply.status == 0)) [
    | inl zero_status ↦
        let same : cc_status d rc reply ≡ cc_caught d reply.key rc (d.connect rc reply.attr) =
          rw (zero_status, cc_status) refl in
        subst (ByConnect rc) (sym same) (
          cc_caught-ok rc reply.attr reply.key (d.connect rc reply.attr) refl
            (ap (λ (p : Result (ByteBuffer × ℕ) × d.Rc). is_ok p.0) (sym same) ∙ ok))
    | inr other ↦ absurd (false≢true (sym (failed other) ∙ ok))
  ]
    where
      failed : (reply.status == 0) ≡ false → is_ok (cc_status d rc reply).0 ≡ false
      failed other = elim (Bool-cases (reply.status == 4)) [
        | inl remote ↦ rw (other, cc_status) (rw remote refl)
        | inr more ↦ elim (Bool-cases (reply.status == 3)) [
          | inl wrong ↦ rw (other, cc_status) (rw (more, wrong) refl)
          | inr unknown ↦ rw (other, cc_status) (rw (more, unknown) refl)
        ]
      ]

  cc_result-ok :
      (rc : d.Rc) (reply : Result ByteBuffer)
      → is_ok (cc_result d rc reply).0 ≡ true
      → ByConnect rc (cc_result d rc reply)
  unfolding cc_result
  cc_result-ok rc reply ok = elim (Bool-cases (is_ok reply)) [
    | inr bad ↦ absurd (false≢true (sym (rw (bad, cc_result) refl) ∙ ok))
    | inl good ↦ elim (Option-cases (dedump rc_reply_layout reply.desc)) [
      | inl garbled ↦ absurd (false≢true (sym (rw (good, cc_result) (rw garbled refl)) ∙ ok))
      | inr (qp_reply, decoded) ↦
          let same : cc_result d rc reply ≡ cc_status d rc qp_reply =
            rw (good, cc_result) (rw decoded refl) in
          subst (ByConnect rc) (sym same) (
            cc_status-ok rc qp_reply
              (ap (λ (p : Result (ByteBuffer × ℕ) × d.Rc). is_ok p.0) (sym same) ∙ ok))
    ]
  ]

either_result :
    {A C : Type 0} (sent : Bool) (x : Option A) (make : A → C) (other c : C)
    → (if sent then (x >>= λ a. some (make a)) else some other) ≡ some c
    → ((a : A) × (x ≡ some a) × (make a ≡ c)) ⊎ (other ≡ c)
either_result true none make other c e = absurd (none≢some e)
either_result true (some a) make other c e = inl (a, refl, some_inj.0 e)
either_result false x make other c e = inr (some_inj.0 e)

-- What an exchange leaves is what a failed call makes, or what the reply does.
exchange_cases :
    {A : Type 0} (fails : Option ByteBuffer) (r : SRpc) (id : ℕ) (parameter : ByteBuffer)
    (failed : Result ByteBuffer → A) (replied : Result ByteBuffer → Option A) (evs : List Event)
    (c : Called A)
    → exchange fails r id parameter failed replied evs ≡ some c
    → ((res : Result ByteBuffer) × (failed res ≡ c.result))
      ⊎ ((reply : Result ByteBuffer) × (replied reply ≡ some c.result))
unfolding exchange
exchange_cases {A} fails r id parameter failed replied evs c e =
    let (x, called, e₁) = bind_some (call_result fails (call r id parameter)) _ c e in
    let reply = receive_reply r false evs in
    elim (either_result (is_ok x.0) (replied reply.0)
      (λ a. record { result = a; rpc = reply.1; sent = x.1; left = reply.2 })
      (record { result = failed x.0; rpc = r; sent = x.1; left = evs }) c e₁) [
        | inl (a, has, same) ↦ inr (reply.0, has ∙ ap (λ (p : Called A). some p.result) same)
        | inr same ↦ inl (x.0, ap (λ (p : Called A). p.result) same)
      ]

module _ (d : Devices) where
  pub cc_rc-ok :
      (fails : Option ByteBuffer) (r : SRpc) (name : ByteBuffer) (rc : d.Rc) (nic_id : ℕ)
      (config : QpConfig) (evs : List Event) (c : Called (Result (ByteBuffer × ℕ) × d.Rc))
      → cc_rc d fails r name rc nic_id config evs ≡ some c
      → is_ok c.result.0 ≡ true
      → ByConnect d rc c.result
  unfolding cc_rc
  cc_rc-ok fails r name rc nic_id config evs c e ok = elim (Bool-cases (too_long name)) [
    | inl long ↦
        let same : cc_rc d fails r name rc nic_id config evs
            ≡ at_once (cc_err d err_name_too_long rc) r evs =
          rw (long, cc_rc) refl in
        absurd (
          false≢true (
            ap (λ (p : Called (Result (ByteBuffer × ℕ) × d.Rc)). is_ok p.result.0)
              (some_inj.0 (sym same ∙ e))
            ∙ ok))
    | inr short ↦
        let same : cc_rc d fails r name rc nic_id config evs
            ≡ exchange fails r create_rc
                (dump rc_req_layout (cc_rc_req name nic_id config (d.my_attr rc)))
                (λ res. cc_err d res.desc rc) (λ reply. some (cc_result d rc reply)) evs =
          rw (short, cc_rc) refl in
        elim (exchange_cases fails r create_rc _ _ _ evs c (sym same ∙ e)) [
          | inl (res, failed) ↦
              absurd
                (false≢true (ap (λ (p : Result (ByteBuffer × ℕ) × d.Rc). is_ok p.0) failed ∙ ok))
          | inr (reply, made) ↦
              let eq : cc_result d rc reply ≡ c.result = some_inj.0 made in
              subst (ByConnect d rc) eq (
                cc_result-ok d rc reply
                  (ap (λ (p : Result (ByteBuffer × ℕ) × d.Rc). is_ok p.0) eq ∙ ok))
        ]
  ]
