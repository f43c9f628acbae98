-- ===== src/Qps/Dummy.antt =====
-- `Dummy` of core/qps/mod.hh: what the queue pairs share. Release has the destructor.
use rlibv.Base.{
  ◌≡◌, refl, sym, ◌∙◌, inl, inr, Option-cases, false≢true, ℕ, ◌+◌, ◌-◌, ◌^◌, ltb, u32_mod, u64_mod,
  Bool, true, false, Option, none, some, if◌then◌else◌, ◌>>=◌,
}
use rlibv.Result.{Result, make_ok, make_err}
use rlibv.Verbs.{Verbs, QpState, qps_rts}
use rlibv.Nic.{RNic}

pub record Dummy (v : Verbs) : Type 0 where
  pub qp : Option v.Qp
  pub cq : Option v.Cq
  pub recv_cq : Option v.Cq
  pub nic : RNic v

-- `static_cast<u64>` of an `int`, which stands as the number with its 32 bits: the sign is extended.
unfoldable pub int_to_u64 : ℕ → ℕ
int_to_u64 n = if ltb n (2 ^ 31) then n else n + (u64_mod - u32_mod)

-- `Dummy::send`, for an argument that is `none`, or the error number where `ibv_post_send` fails
unfoldable pub send : Option ℕ → Result ℕ
send refused = elim refused [ none ↦ make_ok 0 | some errno ↦ make_err errno ]

module _ (v : Verbs) where
  abbrev pub explicit_dummy : RNic v → Dummy v
  explicit_dummy nic = record { qp = none; cq = none; recv_cq = none; nic = nic }

  abbrev pub there {ℓ} : {A : Type ℓ} → Option A → Bool
  there none = false
  there (some a) = true

  unfoldable pub valid : Dummy v → Bool
  valid q = if there q.qp then there q.cq else false

  -- An invalid queue pair has a state that means nothing beside the error; `none` is the failed assertion
  -- where the query fails.
  unfoldable pub qp_status : Dummy v → Option (Result QpState)
  qp_status q =
      if valid q then (q.qp >>= v.query_qp >>= λ s. some (make_ok s)) else some (make_err qps_rts)

  pub valid_parts :
      (q : Dummy v)
      → valid q ≡ true
      → (qp : v.Qp) × (cq : v.Cq) × (q.qp ≡ some qp) × (q.cq ≡ some cq)
  unfolding valid
  valid_parts q h = elim (Option-cases q.qp) [
    | inl no_qp ↦ absurd (false≢true (sym (rw no_qp refl) ∙ h))
    | inr (qp, e) ↦ elim (Option-cases q.cq) [
      | inl no_cq ↦ absurd (false≢true (sym (rw (e, no_cq) refl) ∙ h))
      | inr (cq, c) ↦ (qp, cq, e, c)
    ]
  ]

  pub valid_lem :
      (q : Dummy v) (qp : v.Qp) (cq : v.Cq) → q.qp ≡ some qp → q.cq ≡ some cq → valid q ≡ true
  unfolding valid
  valid_lem q qp cq e c = rw (e, c) refl

  pub qp_status-valid :
      (q : Dummy v) (qp : v.Qp)
      → valid q ≡ true
      → q.qp ≡ some qp
      → qp_status q ≡ (v.query_qp qp >>= λ s. some (make_ok s))
  unfolding qp_status
  qp_status-valid q qp h e = rw (h, e, qp_status) refl

  pub qp_status-invalid : (q : Dummy v) → valid q ≡ false → qp_status q ≡ some (make_err qps_rts)
  unfolding qp_status
  qp_status-invalid q h = rw (h, qp_status) refl
