-- ===== src/Bench/BenchServer/Registered.antt =====
-- What is registered at the server of benchs/bench_server.cc when its daemon starts.
use rlibv.Base.{
  ℕ, zero, suc, ◌+◌, ◌<◌, ◌≡◌, refl, sym, ap, ◌∙◌, Option, none, some, List, [], ◌∷◌, length,
  get_elem?, arith, bind_some, none≢some, ◌>>=◌, ◌==◌, true, Option-cases, Bool-cases, inl, inr,
}
use mathlib.Core.Option.{some_inj}
use rlibv.Base.Keys.{nat_eq}
use rlibv.Config.{Access}
use rlibv.Verbs.{Verbs}
use rlibv.Factory.{Store, find, query, create_then_reg}
use rlibv.Factory.Laws.{reg_free, reg_taken, query-eq-find}
use rlibv.Nic.{RNic, DevIdx, query_dev_names}
use rlibv.Nic
use rlibv.Rmem.{RegHandler, new_mem, default_flags, get_reg_attr}
use rlibv.Rmem
use rlibv.RCtrl.{RCtrl}
use rlibv.System.{devices}
use rlibv.Bench.BenchServer.{register_all, open_nic, new_region, region_sz, set_up}

module _ {V : Type 0} (make : ℕ → Option V) (keys : ℕ → ℕ) where
  created_free :
      (store : Store ℕ V) (i : ℕ) (x : V) (key : ℕ)
      → find i store ≡ none
      → create_then_reg store i (some x) key ≡ (some (x, key), (i, x, key) ∷ store)
  unfolding create_then_reg
  created_free store i x key free = rw (reg_free store i x key free) refl

  created_none : (store : Store ℕ V) (i key : ℕ) → create_then_reg store i none key ≡ (none, store)
  unfolding create_then_reg
  created_none store i key = refl

  created_taken :
      (store : Store ℕ V) (i : ℕ) (x : V) (key : ℕ) (y : V × ℕ)
      → find i store ≡ some y
      → create_then_reg store i (some x) key ≡ (none, store)
  unfolding create_then_reg
  created_taken store i x key y taken = rw (reg_taken store i x key y taken) refl

  -- A turn that is made has its resource registered, and its number was free.
  turn-parts :
      (drawn n i : ℕ) (store store' : Store ℕ V)
      → register_all make keys drawn (suc n) i store ≡ some store'
      → (x : V) × (make i ≡ some x)
        × (find i store ≡ none)
        × (register_all make keys (drawn + 1) n (i + 1) ((i, x, keys drawn) ∷ store) ≡ some store')
  unfolding register_all
  turn-parts drawn n i store store' e = elim (Option-cases (make i)) [
    | inl none_made ↦
        let stops : register_all make keys drawn (suc n) i store ≡ none =
          rw (none_made, created_none store i (keys drawn), register_all) refl in
        absurd (none≢some (sym stops ∙ e))
    | inr (x, made) ↦ elim (Option-cases (find i store)) [
      | inl free ↦
          let goes : register_all make keys drawn (suc n) i store
              ≡ register_all make keys (drawn + 1) n (i + 1) ((i, x, keys drawn) ∷ store) =
            rw (made, created_free store i x (keys drawn) free, register_all) refl in
          (x, made, free, sym goes ∙ e)
      | inr (y, taken) ↦
          let stops : register_all make keys drawn (suc n) i store ≡ none =
            rw (made, created_taken store i x (keys drawn) y taken, register_all) refl in
          absurd (none≢some (sym stops ∙ e))
    ]
  ]

  self_entry :
      (i : ℕ) (y : V) (key : ℕ) (store : Store ℕ V) → find i ((i, y, key) ∷ store) ≡ some (y, key)
  unfolding find
  self_entry i y key store = let same : (i == i) ≡ true = ground arith in rw same refl

  other_entry :
      (i j : ℕ) (y : V) (key : ℕ) (x : V × ℕ) (store : Store ℕ V)
      → find i store ≡ none
      → find j store ≡ some x
      → find j ((i, y, key) ∷ store) ≡ some x
  unfolding find
  other_entry i j y key x store free h = elim (Bool-cases (i == j)) [
    | inl same ↦
        let eq : i ≡ j = ground (arith, same) in
        absurd (none≢some (sym free ∙ ap (λ k. find k store) eq ∙ h))
    | inr differs ↦ rw differs h
  ]

  found_before :
      (n drawn i j : ℕ) (x : V × ℕ) (store store' : Store ℕ V)
      → find j store ≡ some x
      → register_all make keys drawn n i store ≡ some store'
      → find j store' ≡ some x
  unfolding register_all
  found_before zero drawn i j x store store' h e = rw (sym (some_inj.0 e)) h
  found_before (suc n) drawn i j x store store' h e =
      let (y, _, free, rest) = turn-parts drawn n i store store' e in
      found_before n (drawn + 1) (i + 1) j x ((i, y, keys drawn) ∷ store) store'
        (other_entry i j y (keys drawn) x store free h) rest

  registered :
      (n drawn i j : ℕ) (store store' : Store ℕ V)
      → j < n
      → register_all make keys drawn n i store ≡ some store'
      → (x : V) × (make (i + j) ≡ some x) × (query store' (i + j) ≡ some x)
  unfolding register_all
  registered zero drawn i j store store' lt e = absurd (omega (arith, lt))
  registered (suc n) drawn i zero store store' lt e =
      let (x, made, _, rest) = turn-parts drawn n i store store' e in
      let same : i + 0 ≡ i = omega arith in
      let there =
        found_before n (drawn + 1) (i + 1) i (x, keys drawn) ((i, x, keys drawn) ∷ store) store'
          (self_entry i x (keys drawn) store) rest in
      (
        x,
        ap make same ∙ made,
        ap (query store') same ∙ query-eq-find store' i (some (x, keys drawn)) there,
      )
  registered (suc n) drawn i (suc j) store store' lt e =
      let (y, _, _, rest) = turn-parts drawn n i store store' e in
      let next : i + suc j ≡ i + 1 + j = omega arith in
      let (x, made, there) =
        registered n (drawn + 1) (i + 1) j ((i, y, keys drawn) ∷ store) store' (omega (arith, lt))
          rest in
      (x, ap make next ∙ made, ap (query store') next ∙ there)

  registered_all :
      (n drawn j : ℕ) (store store' : Store ℕ V)
      → j < n
      → register_all make keys drawn n 0 store ≡ some store'
      → (x : V) × (make j ≡ some x) × (query store' j ≡ some x)
  registered_all n drawn j store store' lt e =
      let (x, made, there) = registered n drawn 0 j store store' lt e in
      let same : j ≡ 0 + j = omega arith in (x, ap make same ∙ made, ap (query store') same ∙ there)

length-get_elem? :
    {A : Type 0} (xs : List A) (i : ℕ) (x : A) → get_elem? xs i ≡ some x → i < length xs
length-get_elem? [] i x e = absurd (none≢some e)
length-get_elem? (y ∷ ys) zero x e = omega arith
length-get_elem? (y ∷ ys) (suc i) x e = omega (arith, length-get_elem? ys i x e)

-- Where the server of the benchmarks comes to the start of its daemon, every port in the list of the NICs is opened and
-- registered under its place in the list, and a region of 64 megabytes, made at this NIC, under the same
-- number. The registry of queue pairs is as it was.
pub set_up-registered :
    (v : Verbs) (a : Access) (af : ℕ → ℕ → ℕ) (s s' : RCtrl (devices v)) (names : List DevIdx)
    (i : ℕ) (idx : DevIdx)
    → query_dev_names v ≡ some names
    → get_elem? names i ≡ some idx
    → set_up v a af s ≡ some s'
    → ((nic : RNic v) × (h : RegHandler v) × (Nic.create v idx 0 ≡ some nic)
        × (Rmem.create v (new_mem (af i) (region_sz v)) nic (default_flags a) ≡ some h)
        × (query s'.opened_nics i ≡ some nic)
        × (query s'.registered_mrs i ≡ some h))
      × (s'.registered_qps ≡ s.registered_qps)
unfolding set_up
set_up-registered v a af s s' names i idx listed named e =
    let (ns, listed', e₁) = bind_some (query_dev_names v) _ s' e in
    let same : ns ≡ names = some_inj.0 (sym listed' ∙ listed) in
    let (nics, e₂, e₃) =
      bind_some (register_all (open_nic v ns) s.keys s.drawn (length ns) 0 s.opened_nics) _ s' e₁ in
    let (mrs, e₄, e₅) =
      bind_some
        (register_all (new_region v a af nics) s.keys (s.drawn + length ns) (length ns) 0
          s.registered_mrs)
        _ s' e₃ in
    let (first, _, e₆) = bind_some (query mrs 0) _ s' e₅ in
    let (attr, _, e₇) = bind_some (get_reg_attr v first) _ s' e₆ in
    let eq = some_inj.0 e₇ in
    let named' : get_elem? ns i ≡ some idx = ap (λ l. get_elem? l i) same ∙ named in
    let lt = length-get_elem? ns i idx named' in
    let (nic, opened, nic_there) =
      registered_all (open_nic v ns) s.keys (length ns) s.drawn i s.opened_nics nics lt e₂ in
    let (h, made, region_there) =
      registered_all (new_region v a af nics) s.keys (length ns) (s.drawn + length ns) i
        s.registered_mrs mrs lt e₄ in
    (
      (
        nic,
        h,
        ap (λ (o : Option DevIdx). o >>= λ d. Nic.create v d 0) (sym named') ∙ opened,
        ap
              (λ (o : Option (RNic v)).
                o >>= λ n. Rmem.create v (new_mem (af i) (region_sz v)) n (default_flags a))
              (sym nic_there)
            ∙ made,
        ap (λ (t : RCtrl (devices v)). query t.opened_nics i) (sym eq) ∙ nic_there,
        ap (λ (t : RCtrl (devices v)). query t.registered_mrs i) (sym eq) ∙ region_there,
      ),
      ap (λ (t : RCtrl (devices v)). t.registered_qps) (sym eq),
    )
