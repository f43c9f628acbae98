-- ===== src/Base/Bits.antt =====
-- What `&` with a mask of low bits and `|` of two separate fields do at variables: the watermark of
-- core/qps/rc.hh travels in the low bits of a work request's id.
use Prim.Native.Nat.{
  ℕ, zero, suc, ◌+◌, ◌-◌, ◌*◌, ◌/◌, ◌%◌, ◌^◌, ◌≤◌, ◌<◌, min, max, bit_and, bit_or, digits,
  bit_and-bitwise, bit_or-bitwise,
}
use mathlib.Core.Path.{◌≡◌, refl, sym, ap, ◌∙◌}
use native.Mathlib.Omega.{arith}
use native.Mathlib.Nat.{pow-suc, one-le-pow, div-add-mod'}

-- The fuel of the digit recursion does not matter once it covers the number.
module _ (z : ℕ → ℕ) (f : ℕ → ℕ → ℕ) where
  digits-zero : (fuel b : ℕ) → digits z f fuel 0 b ≡ z b
  digits-zero zero b = refl
  digits-zero (suc fuel) b = refl

  digits_stable : (a b m n : ℕ) → a ≤ m → a ≤ n → digits z f m a b ≡ digits z f n a b
  digits_stable zero b m n p q = digits-zero m b ∙ sym (digits-zero n b)
  digits_stable (suc a) b zero n p q = absurd (omega arith)
  digits_stable (suc a) b (suc m) zero p q = absurd (omega arith)
  digits_stable (suc a) b (suc m) (suc n) p q =
      ap (λ d. d * 2 + f (suc a % 2) (b % 2))
        (digits_stable (suc a / 2) (b / 2) m n (omega arith) (omega arith))

and_low : (a b : ℕ) → bit_and a b ≡ bit_and (a / 2) (b / 2) * 2 + min (a % 2) (b % 2)
and_low zero b = omega (arith, bit_and-bitwise 0 b, bit_and-bitwise 0 (b / 2))
and_low (suc a) b = omega (
  arith,
  bit_and-bitwise (suc a) b,
  bit_and-bitwise (suc a / 2) (b / 2),
  digits_stable (λ x. zero) min (suc a / 2) (b / 2) a (suc a / 2) (omega arith) (omega arith),
)

or_low : (a b : ℕ) → bit_or a b ≡ bit_or (a / 2) (b / 2) * 2 + max (a % 2) (b % 2)
or_low zero b = omega (arith, bit_or-bitwise 0 b, bit_or-bitwise 0 (b / 2))
or_low (suc a) b = omega (
  arith,
  bit_or-bitwise (suc a) b,
  bit_or-bitwise (suc a / 2) (b / 2),
  digits_stable (λ x. x) max (suc a / 2) (b / 2) a (suc a / 2) (omega arith) (omega arith),
)

pub bit_and_zero : (b : ℕ) → bit_and 0 b ≡ 0
bit_and_zero b = omega (arith, bit_and-bitwise 0 b)

and_zero_below : (n a : ℕ) → a ≤ n → bit_and a 0 ≡ 0
and_zero_below n zero h = refl
and_zero_below zero (suc a) h = absurd (omega arith)
and_zero_below (suc n) (suc a) h =
    omega (arith, and_low (suc a) 0, and_zero_below n (suc a / 2) (omega arith))

or_zero_below : (n a : ℕ) → a ≤ n → bit_or a 0 ≡ a
or_zero_below n zero h = refl
or_zero_below zero (suc a) h = absurd (omega arith)
or_zero_below (suc n) (suc a) h =
    omega (arith, or_low (suc a) 0, or_zero_below n (suc a / 2) (omega arith))

double_pow : (w q : ℕ) → q * 2 ^ suc w ≡ q * 2 ^ w * 2
double_pow w q = omega (arith, ap (λ (p : ℕ). q * p) (pow-suc 2 w))

-- Setting the low `w` bits of a multiple of `2 ^ w` adds them.
pub bit_or-add : (w q r : ℕ) → r < 2 ^ w → bit_or (q * 2 ^ w) r ≡ q * 2 ^ w + r
bit_or-add zero q r h = ground (arith, or_zero_below q q)
bit_or-add (suc w) q r h = ground (
  arith,
  or_low (q * 2 ^ suc w) r,
  double_pow w q,
  bit_or-add w q (r / 2) (omega (arith, pow-suc 2 w)),
)

-- A mask of `w` ones reads the low field back.
bit_and-add : (w q r : ℕ) → r < 2 ^ w → bit_and (q * 2 ^ w + r) (2 ^ w - 1) ≡ r
bit_and-add zero q r h = ground (arith, and_zero_below q q)
bit_and-add (suc w) q r h = ground (
  arith,
  and_low (q * 2 ^ suc w + r) (2 ^ suc w - 1),
  double_pow w q,
  pow-suc 2 w,
  one-le-pow w 2,
  bit_and-add w q (r / 2) (omega (arith, pow-suc 2 w)),
)

-- So it keeps the remainder by `2 ^ w`.
pub bit_and_ones : (w a : ℕ) → bit_and a (2 ^ w - 1) ≡ a % 2 ^ w
bit_and_ones w a =
    ground (arith, one-le-pow w 2, bit_and-add w (a / 2 ^ w) (a % 2 ^ w), div-add-mod' a (2 ^ w))
