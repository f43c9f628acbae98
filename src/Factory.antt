-- ===== src/Factory.antt =====
-- core/utils/abs_factory.hh: `Factory`, where a resource is registered under a name and handed out
-- with the key that takes it off again.
--
-- The map is the list of its entries, each key once. A method holds the lock for its whole run, so
-- calls of several threads happen one after the other. `rand` is the stream of what the calls of
-- the C library's `rand` return.
pub mod Laws
pub mod GenerateKey
mod Tests
use rlibv.Base.{
  ℕ, zero, suc, ◌+◌, Bool, true, false, Option, none, some, List, [], ◌∷◌, length, ◌==◌,
  if◌then◌else◌, u64_mod, ◌%◌,
}
use rlibv.Base.Keys.{Eq}

-- `generate_key`: draws until one is not 0. The first argument is the fuel, `at` the number of draws
-- made before; the result has the key and the number of draws behind it.
unfoldable pub generate_key : ℕ → (ℕ → ℕ) → ℕ → Option (ℕ × ℕ)
generate_key zero rand at = none
generate_key (suc fuel) rand at =
    let again = generate_key fuel rand (at + 1) in
    if rand at == 0 then again else some (rand at, at + 1)

-- Under a name stand the resource and its authentication key.
abbrev pub Store : Type 0 → Type 0 → Type 0
Store K V = List (K × V × ℕ)

module _ {K V : Type 0} where
  -- `store.size()`
  unfoldable pub reg_entries : Store K V → ℕ
  reg_entries store = length store

module _ {K V : Type 0} ⦃e : Eq K⦄ where
  -- `store.find`
  unfoldable pub find : K → Store K V → Option (V × ℕ)
  find k [] = none
  find k ((j, v, key) ∷ store) = if e.beq j k then some (v, key) else find k store

  -- `store.erase` of the entry under `k`
  unfoldable pub erase : K → Store K V → Store K V
  erase k [] = []
  erase k ((j, v, key) ∷ store) = if e.beq j k then store else (j, v, key) ∷ erase k store

  -- `key` is what `generate_key` returns, which a subclass may override.
  unfoldable pub reg : Store K V → K → V → ℕ → Option ℕ × Store K V
  unfolding find
  reg store k v key = elim (find k store) [
    | some _ ↦ (none, store)
    | none ↦ (some key, (k, v, key) ∷ store)
  ]

  unfoldable pub query : Store K V → K → Option V
  unfolding find
  query store k = elim (find k store) [ none ↦ none | some (v, key) ↦ some v ]

  -- `if (res);` is an empty statement, so `res.value()` runs always; `none` is the exception that it
  -- throws when there is no entry, and the default is never returned.
  unfoldable pub query_or_default : Store K V → K → V → Option V
  unfolding query
  query_or_default store k def = query store k

  unfoldable pub dereg : Store K V → K → ℕ → Option V × Store K V
  unfolding find erase
  dereg store id k = elim (find id store) [
    | none ↦ (none, store)
    | some (v, key) ↦ if key == k then (some v, erase id store) else (none, store)
  ]

  -- `V::create` is the caller's; its result and the key are arguments.
  unfoldable pub create_then_reg : Store K V → K → Option V → ℕ → Option (V × ℕ) × Store K V
  unfolding reg
  create_then_reg store k none key = (none, store)
  create_then_reg store k (some v) key =
      let (res, store') = reg store k v key in
      (elim res [ none ↦ none | some key' ↦ some (v, key') ], store')
