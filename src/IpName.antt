-- ===== src/IpName.antt =====
-- core/utils/ipname.hh: `IPNameHelper`, which splits an address in host and port, and finds the address of
-- a host, with a cache; with `Timer` of core/utils/timer.hh, as far as the cache uses it.
--
-- What resolves a host is the operating system's: the text of `errno` where it fails, or the last of the
-- names. The clock counts nanoseconds. The lock of the cache is left out: a call is one step.
pub mod Decimal
pub mod Lease
mod Tests
use rlibv.Base.{
  ℕ, zero, suc, ◌+◌, ◌-◌, ◌*◌, ◌/◌, ◌%◌, ◌^◌, Bool, true, false, Option, none, some, List, [], ◌∷◌,
  ◌++◌, ◌⊎◌, inl, inr, ltb, leb, ◌==◌, not, ◌&&◌, ◌||◌, if◌then◌else◌, ◌>>=◌, u32_mod,
}
use rlibv.Base.Text.{codes}
use rlibv.Base.Keys.{string_eq}
use rlibv.Result.{Result, make_ok, make_err}
use rlibv.Marshal.{ByteBuffer}

-- the decimal digits of a number, as `std::to_string` writes them; as fuel the number is enough
unfoldable pub digits : ℕ → ℕ → ByteBuffer
digits zero n = (48 + n % 10) ∷ []
digits (suc fuel) n =
    let high = digits fuel (n / 10) in
    if ltb n 10 then (48 + n) ∷ [] else high ++ ((48 + n % 10) ∷ [])

unfoldable pub to_decimal : ℕ → ByteBuffer
to_decimal n = digits n n

-- `std::to_string` of an `int`
unfoldable pub int_to_string : ℕ → ByteBuffer
int_to_string n = if ltb n (2 ^ 31) then to_decimal n else 45 ∷ to_decimal (u32_mod - n)

abbrev pub is_digit : ℕ → Bool
is_digit c = leb 48 c && leb c 57

-- `std::isspace`
abbrev pub is_space : ℕ → Bool
is_space c = (c == 32) || (leb 9 c && leb c 13)

-- The number that a stream of digits starts with, behind what was read of it.
unfoldable pub read_digits : ℕ → ByteBuffer → ℕ
read_digits n [] = n
read_digits n (c ∷ cs) =
    let more = read_digits (n * 10 + (c - 48)) cs in if is_digit c then more else n

-- `>>` into an `int`, behind the sign: at least one digit, and a number that fits; a negative one stands
-- with its 32 bits.
unfoldable pub read_number : Bool → ByteBuffer → Option ℕ
read_number negative [] = none
read_number negative (c ∷ cs) =
    if is_digit c
    then (let n = read_digits 0 (c ∷ cs) in
        if negative
        then (if leb n (2 ^ 31) then some ((u32_mod - n) % u32_mod) else none)
        else (if ltb n (2 ^ 31) then some n else none))
    else none

-- behind the spaces
unfoldable pub read_signed : ByteBuffer → Option ℕ
read_signed [] = none
read_signed (c ∷ cs) =
    if c == 45
    then read_number true cs
    else if c == 43
    then read_number false cs
    else read_number false (c ∷ cs)

-- `parser >> port`
unfoldable pub read_int : ByteBuffer → Option ℕ
read_int [] = none
read_int (c ∷ cs) = let rest = read_int cs in if is_space c then rest else read_signed (c ∷ cs)

-- `h.find(':')`, with the parts before and behind it
unfoldable pub split_colon : ByteBuffer → Option (ByteBuffer × ByteBuffer)
split_colon [] = none
split_colon (c ∷ cs) =
    let rest = split_colon cs in
    if c == 58 then some ([], cs) else (rest >>= λ p. some (c ∷ p.0, p.1))

unfoldable pub parse_addr : ByteBuffer → Option (ByteBuffer × ℕ)
parse_addr h = split_colon h >>= λ p. read_int p.1 >>= λ port. some (p.0, port)

-- `erase(0, find_first_not_of(" "))`
unfoldable pub trim_front : ByteBuffer → ByteBuffer
trim_front [] = []
trim_front (c ∷ cs) = let rest = trim_front cs in if c == 32 then rest else c ∷ cs

-- `erase(find_last_not_of(" ") + 1)`
unfoldable pub trim_back : ByteBuffer → ByteBuffer
trim_back [] = []
trim_back (c ∷ cs) = elim (trim_back cs) [
  | [] ↦ if c == 32 then [] else c ∷ []
  | d ∷ ds ↦ c ∷ d ∷ ds
]

-- the host, its address, and when it was found
pub record Entry : Type 0 where
  pub host : ByteBuffer
  pub ip : ByteBuffer
  pub start_time : ℕ

abbrev pub cache_lease_sec : ℕ
cache_lease_sec = 10

-- `passed_sec`, in whole seconds
unfoldable pub passed_sec : ℕ → ℕ → ℕ
passed_sec start_time now = (now - start_time) / 10 ^ 9

unfoldable pub find : ByteBuffer → List Entry → Option Entry
find host [] = none
find host (e ∷ cache) =
    let rest = find host cache in if string_eq.beq e.host host then some e else rest

unfoldable pub erase : ByteBuffer → List Entry → List Entry
erase host [] = []
erase host (e ∷ cache) =
    let rest = erase host cache in if string_eq.beq e.host host then cache else e ∷ rest

-- Step 2, with what is found: an empty name is an error.
unfoldable pub resolved :
    ByteBuffer → ℕ → List Entry → ByteBuffer ⊎ ByteBuffer → Result ByteBuffer × List Entry
resolved host now cache (inl why) = (make_err why, cache)
resolved host now cache (inr []) = (make_err (codes "not found"), cache)
resolved host now cache (inr (c ∷ cs)) =
    (make_ok (c ∷ cs), record { host = host; ip = c ∷ cs; start_time = now } ∷ cache)

-- `resolve` is what `getaddrinfo` and `getnameinfo` come to.
unfoldable pub host2ip :
    (ByteBuffer → ByteBuffer ⊎ ByteBuffer)
    → ℕ
    → List Entry
    → ByteBuffer
    → Result ByteBuffer × List Entry
host2ip resolve now cache host =
    let trimed_host = trim_back (trim_front host) in
    elim (find trimed_host cache) [
      | none ↦ resolved trimed_host now cache (resolve trimed_host)
      | some e ↦
          if ltb (passed_sec e.start_time now) cache_lease_sec
          then (make_ok e.ip, cache)
          else resolved trimed_host now (erase trimed_host cache) (resolve trimed_host)
    ]
