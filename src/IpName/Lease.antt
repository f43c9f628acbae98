-- ===== src/IpName/Lease.antt =====
-- The cache of core/utils/ipname.hh.
use rlibv.Base.{ℕ, ◌≡◌, refl, ◌∙◌, true, none, some, List, ◌∷◌, ◌⊎◌, inr, ltb, if◌then◌else◌}
use rlibv.Base.Keys.{string_eq}
use rlibv.Result.{make_ok}
use rlibv.Marshal.{ByteBuffer}
use rlibv.IpName.{
  Entry, cache_lease_sec, passed_sec, find, erase, resolved, host2ip, trim_back, trim_front,
}

same_host : (k : ByteBuffer) → string_eq.beq k k ≡ true
same_host k = (string_eq.beq_iff k k).1 refl

find_head : (e : Entry) (cache : List Entry) → find e.host (e ∷ cache) ≡ some e
unfolding find
find_head e cache = rw (same_host e.host, find) refl

erase_head : (e : Entry) (cache : List Entry) → erase e.host (e ∷ cache) ≡ cache
unfolding erase
erase_head e cache = rw (same_host e.host, erase) refl

host2ip-missing :
    (resolve : ByteBuffer → ByteBuffer ⊎ ByteBuffer) (now : ℕ) (cache : List Entry)
    (host : ByteBuffer)
    → find (trim_back (trim_front host)) cache ≡ none
    → host2ip resolve now cache host
      ≡ resolved (trim_back (trim_front host)) now cache (resolve (trim_back (trim_front host)))
unfolding host2ip
host2ip-missing resolve now cache host missing = rw (missing, host2ip) refl

host2ip-found :
    (resolve : ByteBuffer → ByteBuffer ⊎ ByteBuffer) (now : ℕ) (cache : List Entry)
    (host : ByteBuffer) (e : Entry)
    → find (trim_back (trim_front host)) cache ≡ some e
    → host2ip resolve now cache host ≡ (
        if ltb (passed_sec e.start_time now) cache_lease_sec
        then (make_ok e.ip, cache)
        else resolved
            (trim_back (trim_front host))
            now
            (erase (trim_back (trim_front host)) cache)
            (resolve (trim_back (trim_front host))))
unfolding host2ip
host2ip-found resolve now cache host e found = rw (found, host2ip) refl

-- A host that is not in the cache, and that the system finds under a name `c ∷ cs`, gets this name. A later
-- call for it gets the same name, whatever the system says by then, until ten whole seconds have passed;
-- from then on the system is asked again, and the old entry is gone.
pub host2ip-again :
    (resolve resolve' : ByteBuffer → ByteBuffer ⊎ ByteBuffer) (now later c : ℕ) (cs : ByteBuffer)
    (cache : List Entry) (host trimed : ByteBuffer)
    → trim_back (trim_front host) ≡ trimed
    → find trimed cache ≡ none
    → resolve trimed ≡ inr (c ∷ cs)
    → (cache' : List Entry) × (host2ip resolve now cache host ≡ (make_ok (c ∷ cs), cache'))
      × (host2ip resolve' later cache' host ≡ (
          if ltb (passed_sec now later) 10
          then (make_ok (c ∷ cs), cache')
          else resolved trimed later cache (resolve' trimed)))
unfolding resolved
host2ip-again resolve resolve' now later c cs cache host trimed t missing answer =
    let e : Entry = record { host = trimed; ip = c ∷ cs; start_time = now } in
    (
      e ∷ cache,
      host2ip-missing resolve now cache host (rw t missing) ∙ rw (t, answer) refl,
      host2ip-found resolve' later (e ∷ cache) host e (rw t (find_head e cache))
          ∙ rw (t, erase_head e cache) refl,
    )
