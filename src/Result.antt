-- ===== src/Result.antt =====
-- core/result.hh: the code of a request with a description, and the makers of such results.
-- core/utils/option.hh is the library's `Option`.
use rlibv.Base.{ℕ, Bool, true, false, List}
use rlibv.Base.Text.{codes}

-- `IOCode::Code`
pub data IoCode : Type 0 where
  ok err timeout near_ok not_ready : IoCode

unfoldable pub name : IoCode → List ℕ
name ok = codes "Ok"
name err = codes "Err"
name timeout = codes "Timeout"
name near_ok = codes "NearOk"
name not_ready = codes "NotReady"

-- `operator==` on codes
abbrev pub same_code : IoCode → IoCode → Bool
same_code ok ok = true
same_code err err = true
same_code timeout timeout = true
same_code near_ok near_ok = true
same_code not_ready not_ready = true
same_code _ _ = false

pub record Result {ℓ} (D : Type ℓ) : Type ℓ where
  pub code : IoCode
  pub desc : D

-- `res == IOCode::Ok`
abbrev pub is_ok {ℓ} : {D : Type ℓ} → Result D → Bool
is_ok r = same_code r.code ok

abbrev pub is_code {ℓ} : {D : Type ℓ} → Result D → IoCode → Bool
is_code r c = same_code r.code c

module _ {ℓ} {D : Type ℓ} where
  abbrev pub make_ok : D → Result D
  make_ok d = record { code = ok; desc = d }

  abbrev pub make_near_ok : D → Result D
  make_near_ok d = record { code = near_ok; desc = d }

  abbrev pub make_err : D → Result D
  make_err d = record { code = err; desc = d }

  abbrev pub make_timeout : D → Result D
  make_timeout d = record { code = timeout; desc = d }

  abbrev pub make_not_ready : D → Result D
  make_not_ready d = record { code = not_ready; desc = d }

-- The code of one result with the description of another.
abbrev pub transfer {ℓ κ} : {A : Type ℓ} {B : Type κ} → Result A → B → Result B
transfer a d = record { code = a.code; desc = d }

abbrev pub transfer_raw {ℓ} : {A : Type ℓ} → Result A → Result (Unit {0})
transfer_raw a = record { code = a.code; desc = tt }
