-- ===== src/Factory/Laws.antt =====
-- `Factory` of core/utils/abs_factory.hh against a partial function from names to resources.
use rlibv.Base.{
  ℕ, ◌≡◌, refl, sym, ap, ◌∙◌, Option, none, some, List, [], ◌∷◌, ◌==◌, arith, if◌then◌else◌,
  Option-cases, Bool-cases, inl, inr,
}
use rlibv.Base.Keys.{Eq}
use rlibv.Factory.{Store, find, erase, reg, query, dereg}

-- Calls on a factory, and what they return.
pub data Call (K V : Type 0) : Type 0 where
  registers : K → V → ℕ → Call K V
  queries : K → Call K V
  deregisters : K → ℕ → Call K V

pub data Reply (V : Type 0) : Type 0 where
  granted : Option ℕ → Reply V
  resource : Option V → Reply V

module _ {K V : Type 0} ⦃e : Eq K⦄ where
  -- Every name stands in the list once, as in a map.
  abbrev pub Distinct : Store K V → Type 0
  Distinct [] = Unit {0}
  Distinct ((k, v, key) ∷ store) = (find k store ≡ none) × Distinct store

  find-erase :
      (k j : K) (store : Store K V)
      → Distinct store
      → find j (erase k store) ≡ (if e.beq k j then none else find j store)
  unfolding find erase
  find-erase k j [] d = ground arith
  find-erase k j ((i, v, key) ∷ store) d =
      ground (arith, d.0, e.beq_iff i k, e.beq_iff i j, e.beq_iff k j, find-erase k j store d.1)

  find-cons :
      (k j : K) (v : V) (key : ℕ) (store : Store K V)
      → find j ((k, v, key) ∷ store) ≡ (if e.beq k j then some (v, key) else find j store)
  unfolding find
  find-cons k j v key store = refl

  pub reg_free :
      (store : Store K V) (k : K) (v : V) (key : ℕ)
      → find k store ≡ none
      → reg store k v key ≡ (some key, (k, v, key) ∷ store)
  unfolding reg
  reg_free store k v key free = rw (free, reg)

  pub reg_taken :
      (store : Store K V) (k : K) (v : V) (key : ℕ) (x : V × ℕ)
      → find k store ≡ some x
      → reg store k v key ≡ (none, store)
  unfolding reg
  reg_taken store k v key x taken = rw (taken, reg)

  pub query-eq-find :
      (store : Store K V) (k : K) (r : Option (V × ℕ))
      → find k store ≡ r
      → query store k ≡ elim r [ none ↦ none | some x ↦ some x.0 ]
  unfolding query
  query-eq-find store k none h = rw (h, query)
  query-eq-find store k (some x) h = rw (h, query)

  pub dereg_missing :
      (store : Store K V) (k : K) (key : ℕ)
      → find k store ≡ none
      → dereg store k key ≡ (none, store)
  unfolding dereg
  dereg_missing store k key h = rw (h, dereg)

  pub dereg_found :
      (store : Store K V) (k : K) (key : ℕ) (x : V × ℕ)
      → find k store ≡ some x
      → dereg store k key ≡ (if x.1 == key then (some x.0, erase k store) else (none, store))
  unfolding dereg
  dereg_found store k key x h = rw (h, dereg)

  erase-Distinct : (k : K) (store : Store K V) → Distinct store → Distinct (erase k store)
  unfolding erase
  erase-Distinct k [] d = tt
  erase-Distinct k ((i, v, key) ∷ store) d =
      ground (arith, d.0, erase-Distinct k store d.1, find-erase k i store d.1)

  -- `reg` and `dereg` keep the names distinct.
  reg-Distinct :
      (store : Store K V) (k : K) (v : V) (key : ℕ)
      → Distinct store
      → Distinct (reg store k v key).1
  unfolding reg
  reg-Distinct store k v key d = elim (Option-cases (find k store)) [
    | inl free ↦ rw (free, reg) (free, d)
    | inr (x, taken) ↦ rw (taken, reg) d
  ]

  pub dereg-Distinct :
      (store : Store K V) (k : K) (key : ℕ) → Distinct store → Distinct (dereg store k key).1
  unfolding dereg
  dereg-Distinct store k key d = ground (arith, erase-Distinct k store d)

  unfoldable pub run : Store K V → List (Call K V) → List (Reply V)
  run store [] = []
  run store (registers k v key ∷ calls) =
      let (r, store') = reg store k v key in granted r ∷ run store' calls
  run store (queries k ∷ calls) = resource (query store k) ∷ run store calls
  run store (deregisters k key ∷ calls) =
      let (r, store') = dereg store k key in resource r ∷ run store' calls

  -- The specification. Registering binds a free name only; taking off wants the key that the name is bound with.
  unfoldable pub spec_run : (K → Option (V × ℕ)) → List (Call K V) → List (Reply V)
  spec_run f [] = []
  spec_run f (registers k v key ∷ calls) =
      let bound = spec_run (λ j. if e.beq k j then some (v, key) else f j) calls in
      let same = spec_run f calls in
      elim (f k) [ none ↦ granted (some key) ∷ bound | some x ↦ granted none ∷ same ]
  spec_run f (queries k ∷ calls) =
      resource (elim (f k) [ none ↦ none | some x ↦ some x.0 ]) ∷ spec_run f calls
  spec_run f (deregisters k key ∷ calls) =
      let freed = spec_run (λ j. if e.beq k j then none else f j) calls in
      let same = spec_run f calls in
      elim (f k) [
        | none ↦ resource none ∷ same
        | some x ↦ if x.1 == key then resource (some x.0) ∷ freed else resource none ∷ same
      ]

  -- No sequence of calls tells a factory, in whose list every name stands once, from a partial
  -- function that agrees with the list at the start.
  pub run_refines :
      (calls : List (Call K V)) (store : Store K V) (f : K → Option (V × ℕ))
      → Distinct store
      → ((j : K) → find j store ≡ f j)
      → run store calls ≡ spec_run f calls
  unfolding run spec_run
  run_refines [] store f d same = refl
  run_refines (registers k v key ∷ calls) store f d same = elim (Option-cases (find k store)) [
    | inl free ↦ rw (reg_free store k v key free) (
        rw (sym (same k) ∙ free, spec_run)
          (ap (◌∷◌ (granted (some key))) (
            run_refines calls ((k, v, key) ∷ store) _ (free, d)
              (λ j.
                find-cons k j v key store
                ∙ ap (λ r. if e.beq k j then some (v, key) else r) (same j)))))
    | inr (x, taken) ↦ rw (reg_taken store k v key x taken) (
        rw (sym (same k) ∙ taken, spec_run)
          (ap (◌∷◌ (granted none)) (run_refines calls store f d same)))
  ]
  run_refines (queries k ∷ calls) store f d same =
      rw (query-eq-find store k (f k) (same k), run_refines calls store f d same)
  run_refines (deregisters k key ∷ calls) store f d same = elim (Option-cases (find k store)) [
    | inl free ↦ rw (dereg_missing store k key free) (
        rw (sym (same k) ∙ free, spec_run)
          (ap (◌∷◌ (resource none)) (run_refines calls store f d same)))
    | inr (x, taken) ↦ rw (dereg_found store k key x taken) (
        rw (sym (same k) ∙ taken, spec_run)
          (elim (Bool-cases (x.1 == key)) [
            | inl right ↦ rw right (
                ap (◌∷◌ (resource (some x.0))) (
                  run_refines calls (erase k store) _ (erase-Distinct k store d) (λ j.
                    find-erase k j store d ∙ ap (λ r. if e.beq k j then none else r) (same j))))
            | inr wrong ↦ rw wrong (ap (◌∷◌ (resource none)) (run_refines calls store f d same))
          ]))
  ]
