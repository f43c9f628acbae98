-- ===== src/RCtrl/Entries.antt =====
-- What holds of all entries of a registry of core/utils/abs_factory.hh, and stays so when one is taken off.
use rlibv.Base.{ℕ, [], ◌∷◌, ◌==◌, Option-cases, Bool-cases, inl, inr}
use rlibv.Base.Keys.{string_eq, nat_eq}
use rlibv.Marshal.{ByteBuffer}
use rlibv.Factory.{Store, find, erase, dereg}
use rlibv.Factory.Laws.{dereg_missing, dereg_found}

-- `P` of every resource and `G` of every key
abbrev pub AllEntries : {V : Type 0} → (V → Type 0) → (ℕ → Type 0) → Store ByteBuffer V → Type 0
AllEntries P G [] = Unit {0}
AllEntries P G ((k, v, key) ∷ store) = P v × G key × AllEntries P G store

erase-AllEntries :
    {V : Type 0} (P : V → Type 0) (G : ℕ → Type 0) (k : ByteBuffer) (store : Store ByteBuffer V)
    → AllEntries P G store
    → AllEntries P G (erase k store)
unfolding erase
erase-AllEntries P G k [] a = tt
erase-AllEntries P G k ((j, v, key) ∷ store) a = elim (Bool-cases (string_eq.beq j k)) [
  | inl here ↦ rw (here, erase) a.2
  | inr there ↦ rw (there, erase) (a.0, a.1, erase-AllEntries P G k store a.2)
]

pub dereg-AllEntries :
    {V : Type 0} (P : V → Type 0) (G : ℕ → Type 0) (store : Store ByteBuffer V) (k : ByteBuffer)
    (key : ℕ)
    → AllEntries P G store
    → AllEntries P G (dereg store k key).1
dereg-AllEntries P G store k key a = elim (Option-cases (find k store)) [
  | inl free ↦ rw (dereg_missing store k key free) a
  | inr (x, taken) ↦ rw (dereg_found store k key x taken) (elim (Bool-cases (x.1 == key)) [
    | inl right ↦ rw right (erase-AllEntries P G k store a)
    | inr wrong ↦ rw wrong a
  ])
]
