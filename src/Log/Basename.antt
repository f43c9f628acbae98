-- ===== src/Log/Basename.antt =====
-- The name of a file without its directories, as core/utils/logging.hh prints it.
use rlibv.Base.{
  ℕ, suc, ◌+◌, ◌≡◌, ◌≢◌, refl, ap, none, some, [], ◌∷◌, ◌++◌, ◌==◌, drop, arith, Bool-cases, inl,
  inr, ◌⊎◌,
}
use rlibv.Marshal.{ByteBuffer}
use rlibv.Log.{rfind, strip_basename}

-- The character does not occur.
abbrev pub Lacks : ℕ → ByteBuffer → Type 0
Lacks c [] = Unit {0}
Lacks c (x ∷ xs) = (x ≢ c) × Lacks c xs

-- What `rfind` tells: the character is not there, or `drop` behind its place has it no more.
pub data Found (c : ℕ) (s : ByteBuffer) : Type 0 where
  missing : rfind c s ≡ none → Lacks c s → Found c s
  at :
      (i : ℕ) (front : ByteBuffer)
      → rfind c s ≡ some i
      → s ≡ front ++ (c ∷ drop (i + 1) s)
      → Lacks c (drop (i + 1) s)
      → Found c s

rfind-Found : (c : ℕ) (s : ByteBuffer) → Found c s
unfolding rfind
rfind-Found c [] = missing refl tt
rfind-Found c (x ∷ xs) = step (rfind-Found c xs)
  where
    behind : (i : ℕ) → drop (suc i + 1) (x ∷ xs) ≡ drop (i + 1) xs
    behind i = ground arith

    step : Found c xs → Found c (x ∷ xs)
    step (at i front e split lacks) =
        at (suc i) (x ∷ front) (rw (e, rfind) refl) (rw (behind i) (ap (◌∷◌ x) split))
          (rw (behind i) lacks)
    step (missing e lacks) = elim (Bool-cases (x == c)) [
      | inl here ↦ at 0 [] (rw (e, rfind) (rw here refl)) (ground (arith, here)) lacks
      | inr other ↦ missing (rw (e, rfind) (rw other refl)) (ground (arith, other), lacks)
    ]

-- The name has no slash, and the path is this name, or a directory, a slash and this name.
pub strip_basename-suffix :
    (path : ByteBuffer)
    → Lacks 47 (strip_basename path)
      × ((strip_basename path ≡ path)
          ⊎ ((directory : ByteBuffer) × (path ≡ directory ++ (47 ∷ strip_basename path))))
unfolding strip_basename
strip_basename-suffix path = by_place (rfind-Found 47 path)
  where
    by_place :
        Found 47 path
        → Lacks 47 (strip_basename path)
          × ((strip_basename path ≡ path)
              ⊎ ((directory : ByteBuffer) × (path ≡ directory ++ (47 ∷ strip_basename path))))
    by_place (missing e lacks) = rw (e, strip_basename) (lacks, inl refl)
    by_place (at i front e split lacks) =
        let name : strip_basename path ≡ drop (i + 1) path = rw (e, strip_basename) refl in
        rw name (lacks, inr (front, split))
