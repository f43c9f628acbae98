-- ===== src/Qps/RecvEntries/Ring.antt =====
-- Posting from the ring of core/qps/recv_helper.hh keeps it a ring, and posts what it should.
use rlibv.Base.{
  ℕ, suc, ◌+◌, ◌-◌, ◌%◌, ◌^◌, ◌≤◌, ◌<◌, ◌≡◌, ◌≢◌, refl, sym, ap, ◌∙◌, Option, none, some, length,
  ◌==◌, ltb, if◌then◌else◌, set, get_elem?, get_elem?-set_self, get_elem?-set_ne, arith, ℕ_discrete,
  set-set_same, Option-cases, inl, inr,
}
use rlibv.Result.{make_ok, make_err}
use rlibv.Qps.WrChain.{
  Nexts, chain, places, chain-places, ring_from, length-ring_from, get_elem?-ring_from,
}
use mathlib.Core.Option.{some_inj}
use native.Mathlib.Nat.{mod_self, mod-eq_of_lt}
use rlibv.Qps.RecvEntries.{
  RecvEntries, Posted, tail, post_recvs, Allocator, alloc_entries, addrs, create, create_static,
}

-- the place behind `i` in a ring of `n`
abbrev pub after : ℕ → ℕ → ℕ
after n i = if suc i == n then 0 else suc i

-- the place `j` behind the header
abbrev pub place : ℕ → ℕ → ℕ → ℕ
place n header j = if ltb (header + j) n then header + j else header + j - n

-- Every request points at the one behind it, the last at the first.
pub record IsRing (n : ℕ) (r : RecvEntries) : Type 0 where
  pub sized : length r.nexts ≡ n
  pub links : (i : ℕ) → i < n → get_elem? r.nexts i ≡ some (some (after n i))
  pub inside : r.header < n

pub ring_from-IsRing :
    (n : ℕ) (r : RecvEntries) → r.nexts ≡ ring_from 0 n → r.header < n → IsRing n r
ring_from-IsRing n r e inside = record {
  sized = ap length e ∙ length-ring_from 0 n;
  links = λ i lt. ap (λ xs. get_elem? xs i) e ∙ get_elem?-ring_from 0 n i lt ∙ ground arith;
  inside = inside;
}

-- The entries that the factory makes, for one or more, are a ring with the header at its first place.
pub create-IsRing :
    {S : Type 0} (alloc_one : Allocator S) (n : ℕ) (s s' : S) (msg_sz : ℕ) (r : RecvEntries)
    → 0 < n
    → create alloc_one n s msg_sz ≡ some (r, s')
    → IsRing n r
unfolding create
create-IsRing {S = S} alloc_one n s s' msg_sz r pos made =
    elim (Option-cases (alloc_entries alloc_one n s msg_sz)) [
      | inl failed ↦ absurd (ground (arith, made, failed))
      | inr (x, done) ↦
          let e : ◌≡◌ {A = Option (RecvEntries × S)}
              (some (
                record {
                  nexts = ring_from 0 n;
                  wr_ids = addrs alloc_one x.0;
                  sges = x.0;
                  header = 0;
                },
                x.1,
              ))
              (some (r, s')) =
            (rw done at made) in
          ring_from-IsRing n r (sym (ap (λ (p : RecvEntries × S). p.0.nexts) (some_inj.0 e)))
            (omega (arith, pos, ap (λ (p : RecvEntries × S). p.0.header) (some_inj.0 e)))
    ]

-- Both factories make the same entries, and ask the allocator for the same.
create_static-eq-create :
    {S : Type 0} (alloc_one : Allocator S) (n sz : ℕ) (s : S)
    → create_static alloc_one n sz s ≡ create alloc_one n s sz
unfolding create create_static
create_static-eq-create alloc_one n sz s = refl

module _ (n : ℕ) (r : RecvEntries) (num : ℕ) (h : IsRing n r) (some_posted : 0 < num)
    (fits : num ≤ n) (small : n < 2 ^ 31) where
  tail-place : tail n r num ≡ place n r.header (num - 1)
  tail-place = ground (arith, h.inside)

  tail-inside : tail n r num < n
  tail-inside = ground (arith, h.inside)

  abbrev cut : Nexts
  cut = set r.nexts (tail n r num) none

  cut_links :
      (j : ℕ)
      → j < num - 1
      → get_elem? cut (place n r.header j) ≡ some (some (place n r.header (suc j)))
  cut_links j lt =
      get_elem?-set_ne r.nexts (tail n r num) (place n r.header j) none (λ e. apart e)
      ∙ h.links (place n r.header j) (ground (arith, h.inside))
      ∙ ap (λ (m : ℕ). some (some m)) (ground (arith, h.inside))
    where
      apart : tail n r num ≢ place n r.header j
      apart e = ground (arith, h.inside, tail-place)

  cut_last : get_elem? cut (place n r.header (num - 1)) ≡ some none
  cut_last =
      ap (get_elem? cut) (sym tail-place)
      ∙ get_elem?-set_self r.nexts (tail n r num) none (omega (arith, h.sized, tail-inside))

  seen_chain : chain n cut r.header ≡ some (places (place n r.header) num)
  seen_chain =
      ap (chain n cut) start
      ∙ chain-places n cut (place n r.header) (num - 1) (omega arith) cut_links cut_last
      ∙ ap (λ (m : ℕ). some (places (place n r.header) m)) all
    where
      start : r.header ≡ place n r.header 0
      start = ground (arith, h.inside)

      all : suc (num - 1) ≡ num
      all = omega arith

  tail_read : get_elem? r.nexts (tail n r num) ≡ some (some (after n (tail n r num)))
  tail_read = h.links (tail n r num) tail-inside

  next_header : (tail n r num + 1) % n ≡ place n r.header num
  next_header = elim (ℕ_discrete (tail n r num + 1) n) [
    | yes whole ↦ rw whole (mod_self n ∙ ground (arith, h.inside, tail-place))
    | no ne ↦ mod-eq_of_lt (omega (arith, tail-inside)) ∙ ground (arith, h.inside, tail-place)
  ]

  -- Where the device accepts them, `post_recvs` posts exactly `num` entries, from the header's on and
  -- around the end of the array, for 1 to `n` of them and an array of less than 2^31. The ring is whole
  -- again behind it, and the header stands behind the last entry posted.
  pub post_recvs-IsRing :
      (post_recvs n none r num
        ≡ some (record {
          result = make_ok 0;
          seen = places (place n r.header) num;
          ring = record r { header = place n r.header num };
        }))
      × IsRing n (record r { header = place n r.header num })
  unfolding post_recvs
  post_recvs-IsRing = (
    rw (tail_read, post_recvs)
        (rw
          (
            seen_chain,
            set-set_same r.nexts (tail n r num) none (some (after n (tail n r num))) tail_read,
            next_header,
          )
          refl),
    record { sized = h.sized; links = h.links; inside = ground (arith, h.inside) },
  )

  -- Where the device refuses them, the error is returned, and the ring is left cut: it is none any more.
  pub post_recvs_refused :
      (errno : ℕ)
      → (post : Posted) × (post_recvs n (some errno) r num ≡ some post)
        × (post.result ≡ make_err errno)
        × ¬ IsRing n post.ring
  unfolding post_recvs
  post_recvs_refused errno = (
    record {
      result = make_err errno;
      seen = places (place n r.header) num;
      ring = record r { nexts = cut };
    },
    rw (tail_read, post_recvs) (rw seen_chain refl),
    refl,
    λ ring. no_link (
        sym (get_elem?-set_self r.nexts (tail n r num) none (omega (arith, h.sized, tail-inside)))
        ∙ ring.links (tail n r num) tail-inside),
  )
    where
      no_link : {m : ℕ} → ¬ (◌≡◌ {A = Option (Option ℕ)} (some none) (some (some m)))
      no_link e = cc
