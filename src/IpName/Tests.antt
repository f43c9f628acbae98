-- ===== src/IpName/Tests.antt =====
-- An address that is parsed, and a host that is looked up twice: core/utils/ipname.hh.
use rlibv.Base.{◌≡◌, refl, some, none, List, [], ◌∷◌, ◌⊎◌, inr, ltb, if◌then◌else◌}
use rlibv.Base.Text.{codes}
use rlibv.Result.{make_ok}
use rlibv.Marshal.{ByteBuffer}
use rlibv.IpName.{
  Entry, parse_addr, find, host2ip, resolved, passed_sec, trim_front, trim_back, read_int,
  split_colon, read_signed, read_number, read_digits,
}
use rlibv.IpName.Lease.{host2ip-again}

-- spaces before the port, a sign, and what follows the number, are accepted
parse_spaces : parse_addr (codes "va: +80x") ≡ some (codes "va", 80)
unfolding parse_addr read_int split_colon read_signed read_number read_digits
parse_spaces = refl

abbrev first : ByteBuffer → ByteBuffer ⊎ ByteBuffer
first host = inr (49 ∷ [])

abbrev second : ByteBuffer → ByteBuffer ⊎ ByteBuffer
second host = inr (50 ∷ [])

trimmed : trim_back (trim_front (32 ∷ 118 ∷ 32 ∷ [])) ≡ 118 ∷ []
unfolding trim_back trim_front
trimmed = refl

empty : find (118 ∷ []) [] ≡ none
unfolding find
empty = refl

host2ip-again_example :
    (cache' : List Entry) × (host2ip first 5 [] (32 ∷ 118 ∷ 32 ∷ []) ≡ (make_ok (49 ∷ []), cache'))
    × (host2ip second 9000000000 cache' (32 ∷ 118 ∷ 32 ∷ []) ≡ (
        if ltb (passed_sec 5 9000000000) 10
        then (make_ok (49 ∷ []), cache')
        else resolved (118 ∷ []) 9000000000 [] (second (118 ∷ []))))
host2ip-again_example =
    host2ip-again first second 5 9000000000 49 [] [] (32 ∷ 118 ∷ 32 ∷ []) (118 ∷ []) trimmed empty
      refl
