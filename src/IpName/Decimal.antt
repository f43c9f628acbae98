-- ===== src/IpName/Decimal.antt =====
-- Addresses that core/utils/ipname.hh takes apart again.
use rlibv.Base.{
  ℕ, zero, suc, ◌+◌, ◌-◌, ◌*◌, ◌/◌, ◌%◌, ◌^◌, ◌≤◌, ◌<◌, ◌≡◌, ◌≢◌, refl, sym, ap, ◌∙◌, true, false,
  some, [], ◌∷◌, ◌++◌, ltb, ◌==◌, arith, Bool-cases, inl, inr,
}
use mathlib.Core.Path.{subst}
use rlibv.Marshal.{ByteBuffer}
use rlibv.IpName.{
  digits, to_decimal, is_digit, is_space, read_digits, read_number, read_signed, read_int,
  split_colon, parse_addr,
}

-- decimal digits, and at least one
AllDigits : ByteBuffer → Type 0
AllDigits [] = Unit
AllDigits (c ∷ cs) = (48 ≤ c) × (c ≤ 57) × AllDigits cs

AllDigits-append : (xs ys : ByteBuffer) → AllDigits xs → AllDigits ys → AllDigits (xs ++ ys)
unfolding AllDigits
AllDigits-append [] ys h k = k
AllDigits-append (x ∷ xs) ys h k = (h.0, h.1, AllDigits-append xs ys h.2 k)

AllDigits-digits : (fuel n : ℕ) → AllDigits (digits fuel n)
unfolding AllDigits digits
AllDigits-digits zero n = (omega arith, omega arith, tt)
AllDigits-digits (suc fuel) n = elim (Bool-cases (ltb n 10)) [
  | inl small ↦ rw small (omega arith, ground arith, tt)
  | inr big ↦ rw big (
      AllDigits-append (digits fuel (n / 10)) _ (AllDigits-digits fuel (n / 10))
        (omega arith, omega arith, tt))
]

read_digits-append :
    (acc : ℕ) (xs ys : ByteBuffer)
    → AllDigits xs
    → read_digits acc (xs ++ ys) ≡ read_digits (read_digits acc xs) ys
unfolding AllDigits read_digits
read_digits-append acc [] ys h = refl
read_digits-append acc (x ∷ xs) ys h =
    let d : is_digit x ≡ true = ground (arith, h) in
    rw d (read_digits-append (acc * 10 + (x - 48)) xs ys h.2)

read_digit : (acc d : ℕ) → d < 10 → read_digits acc ((48 + d) ∷ []) ≡ acc * 10 + d
unfolding read_digits
read_digit acc d h = ground (arith, h)

read_digits-digits : (fuel n : ℕ) → n ≤ fuel → read_digits 0 (digits fuel n) ≡ n
unfolding digits
read_digits-digits zero n h = read_digit 0 (n % 10) (omega arith) ∙ omega (arith, h)
read_digits-digits (suc fuel) n h = elim (Bool-cases (ltb n 10)) [
  | inl small ↦ rw small (read_digit 0 n (ground (arith, small)) ∙ omega arith)
  | inr big ↦
      let fits : n / 10 ≤ fuel = ground (arith, big, h) in
      let high : read_digits 0 (digits fuel (n / 10)) ≡ n / 10 =
        read_digits-digits fuel (n / 10) fits in
      rw big (
        read_digits-append 0 (digits fuel (n / 10)) ((48 + n % 10) ∷ [])
          (AllDigits-digits fuel (n / 10))
        ∙ rw high (read_digit (n / 10) (n % 10) (omega arith) ∙ omega arith))
]

digits-cons : (fuel n : ℕ) → (c : ℕ) × (cs : ByteBuffer) × (digits fuel n ≡ c ∷ cs)
unfolding digits
digits-cons zero n = (48 + n % 10, [], refl)
digits-cons (suc fuel) n = elim (Bool-cases (ltb n 10)) [
  | inl small ↦ (48 + n, [], rw small refl)
  | inr big ↦
      let (c, cs, e) = digits-cons fuel (n / 10) in
      (c, cs ++ ((48 + n % 10) ∷ []), rw big (ap (λ xs. xs ++ ((48 + n % 10) ∷ [])) e))
]

read_int-AllDigits :
    (c : ℕ) (cs : ByteBuffer)
    → AllDigits (c ∷ cs)
    → read_digits 0 (c ∷ cs) < 2 ^ 31
    → read_int (c ∷ cs) ≡ some (read_digits 0 (c ∷ cs))
unfolding read_int read_signed read_number AllDigits
read_int-AllDigits c cs h small =
    let space : is_space c ≡ false = ground (arith, h) in
    let minus : (c == 45) ≡ false = ground (arith, h) in
    let plus : (c == 43) ≡ false = ground (arith, h) in
    let digit : is_digit c ≡ true = ground (arith, h) in
    let fits : ltb (read_digits 0 (c ∷ cs)) (2 ^ 31) ≡ true = ground (arith, small) in
    rw (space, minus, plus, digit, fits) refl

-- The decimal text of a number of at most 31 bits is read as this number.
read_int-to_decimal : (n : ℕ) → n < 2 ^ 31 → read_int (to_decimal n) ≡ some n
unfolding to_decimal
read_int-to_decimal n h =
    let (c, cs, e) = digits-cons n n in
    let all : AllDigits (c ∷ cs) = subst AllDigits e (AllDigits-digits n n) in
    let value : read_digits 0 (c ∷ cs) ≡ n =
      ap (read_digits 0) (sym e) ∙ read_digits-digits n n (omega arith) in
    rw e (read_int-AllDigits c cs all (omega (arith, value, h)) ∙ ap some value)

-- no colon in a host
abbrev pub NoColon : ByteBuffer → Type 0
NoColon [] = Unit
NoColon (c ∷ cs) = (c ≢ 58) × NoColon cs

split_colon-append :
    (host rest : ByteBuffer) → NoColon host → split_colon (host ++ (58 ∷ rest)) ≡ some (host, rest)
unfolding split_colon
split_colon-append [] rest h = refl
split_colon-append (c ∷ cs) rest h =
    let other : (c == 58) ≡ false = ground (arith, h.0) in
    rw (other, split_colon-append cs rest h.1) refl

-- A host without a colon, a colon and the decimal text of a port of at most 31 bits are parsed as this host
-- and this port.
pub parse_addr-to_decimal :
    (host : ByteBuffer) (port : ℕ)
    → NoColon host
    → port < 2 ^ 31
    → parse_addr (host ++ (58 ∷ to_decimal port)) ≡ some (host, port)
unfolding parse_addr
parse_addr-to_decimal host port no_colon small =
    rw (split_colon-append host (to_decimal port) no_colon, parse_addr)
      (rw (read_int-to_decimal port small) refl)
