-- ===== src/Base/Keys.antt =====
-- Equality of the keys of a `std::map`.
use Prim.Native.Nat.{ℕ}
use mathlib.Core.Path.{◌≡◌, refl}
use mathlib.Core.Logic.{◌↔◌}
use mathlib.Core.Bool.{Bool, true, false, ◌&&◌}
use mathlib.Core.List.{List, [], ◌∷◌}
use native.Mathlib.Omega.{arith}
use rlibv.Base.Tests.{◌==◌, ==_iff}

pub record Eq {ℓ} (A : Type ℓ) : Type ℓ where
  pub beq : A → A → Bool
  pub beq_iff : (a b : A) → (beq a b ≡ true) ↔ (a ≡ b)

abbrev pub nat_beq : ℕ → ℕ → Bool
nat_beq a b = a == b

-- Strings are compared by their bytes.
unfoldable pub string_beq : List ℕ → List ℕ → Bool
string_beq [] [] = true
string_beq [] (y ∷ ys) = false
string_beq (x ∷ xs) [] = false
string_beq (x ∷ xs) (y ∷ ys) = (x == y) && string_beq xs ys

string_beq_refl : (xs : List ℕ) → string_beq xs xs ≡ true
unfolding string_beq
string_beq_refl [] = refl
string_beq_refl (x ∷ xs) = ground (arith, string_beq_refl xs)

string_beq-eq : (xs ys : List ℕ) → string_beq xs ys ≡ true → xs ≡ ys
unfolding string_beq
string_beq-eq [] [] h = refl
string_beq-eq [] (y ∷ ys) h = cc
string_beq-eq (x ∷ xs) [] h = cc
string_beq-eq (x ∷ xs) (y ∷ ys) h = ground (arith, string_beq-eq xs ys)

pub string_beq_iff : (xs ys : List ℕ) → (string_beq xs ys ≡ true) ↔ (xs ≡ ys)
string_beq_iff xs ys = (string_beq-eq xs ys, λ e. rw e (string_beq_refl ys))

instance abbrev pub nat_eq : Eq ℕ
nat_eq = record { beq = nat_beq; beq_iff = ==_iff }

instance abbrev pub string_eq : Eq (List ℕ)
string_eq = record { beq = string_beq; beq_iff = string_beq_iff }
