-- ===== src/Qps/WrChain.antt =====
-- Work requests that are linked by their `next` pointers in an array, as the device reads them.
--
-- A pointer into the array is the index that it points at. Following one that points behind the
-- array is undefined.
use rlibv.Base.{
  ℕ, zero, suc, ◌+◌, ◌<◌, ◌≡◌, refl, ap, ◌∙◌, Option, none, some, List, [], ◌∷◌, length, get_elem?,
  ◌>>=◌, arith, ◌==◌, if◌then◌else◌,
}

abbrev pub Nexts : Type 0
Nexts = List (Option ℕ)

-- The requests of a chain from its first one on, up to the one with a null pointer; the first argument
-- is the fuel.
unfoldable pub chain : ℕ → Nexts → ℕ → Option (List ℕ)
chain zero nexts i = none
chain (suc fuel) nexts i = elim (get_elem? nexts i) [
  | none ↦ none
  | some none ↦ some (i ∷ [])
  | some (some j) ↦ chain fuel nexts j >>= λ is. some (i ∷ is)
]

-- the first `n` places
abbrev pub places : (ℕ → ℕ) → ℕ → List ℕ
places at zero = []
places at (suc n) = at 0 ∷ places (λ j. at (suc j)) n

-- Requests that are linked in the order of `at`, the last of them with a null pointer, are the chain.
pub chain-places :
    (fuel : ℕ) (nexts : Nexts) (at : ℕ → ℕ) (k : ℕ)
    → k < fuel
    → ((j : ℕ) → j < k → get_elem? nexts (at j) ≡ some (some (at (suc j))))
    → get_elem? nexts (at k) ≡ some none
    → chain fuel nexts (at 0) ≡ some (places at (suc k))
unfolding chain
chain-places zero nexts at k h links last = absurd (omega arith)
chain-places (suc fuel) nexts at zero h links last = rw (last, chain) refl
chain-places (suc fuel) nexts at (suc k) h links last =
    rw (links 0 (omega arith), chain)
      (rw
        (chain-places fuel nexts (λ j. at (suc j)) k (omega arith)
          (λ j lt. links (suc j) (omega arith)) last)
        refl)

-- An array of `n` requests from `i` on, each with a pointer to the one behind it, the last to the first.
abbrev pub ring_from : ℕ → ℕ → Nexts
ring_from i zero = []
ring_from i (suc zero) = some 0 ∷ []
ring_from i (suc (suc k)) = some (suc i) ∷ ring_from (suc i) (suc k)

pub length-ring_from : (i n : ℕ) → length (ring_from i n) ≡ n
length-ring_from i zero = refl
length-ring_from i (suc zero) = refl
length-ring_from i (suc (suc k)) = ap suc (length-ring_from (suc i) (suc k))

-- where the pointer of place `i` in a ring of `n` goes
abbrev pub after : ℕ → ℕ → ℕ
after n i = if suc i == n then 0 else suc i

pub get_elem?-ring_from :
    (i n j : ℕ)
    → j < n
    → get_elem? (ring_from i n) j ≡ some (some (if suc j == n then 0 else suc (i + j)))
get_elem?-ring_from i zero j h = absurd (omega arith)
get_elem?-ring_from i (suc zero) zero h = refl
get_elem?-ring_from i (suc zero) (suc j) h = absurd (omega arith)
get_elem?-ring_from i (suc (suc k)) zero h = ground arith
get_elem?-ring_from i (suc (suc k)) (suc j) h =
    get_elem?-ring_from (suc i) (suc k) j (omega arith) ∙ ground arith
