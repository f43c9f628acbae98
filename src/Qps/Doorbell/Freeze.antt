-- ===== src/Qps/Doorbell/Freeze.antt =====
-- Freezing, posting and clearing a batch of core/qps/doorbell_helper.hh.
use rlibv.Base.{
  ℕ, zero, suc, ◌+◌, ◌-◌, ◌≤◌, ◌<◌, ◌≡◌, refl, sym, ap, ◌∙◌, none, some, length, set, get_elem?,
  get_elem?-set_self, get_elem?-set_ne, length-set, arith, ℕ_discrete,
}
use rlibv.Qps.WrChain.{Nexts, chain, places, chain-places, length-ring_from, get_elem?-ring_from}
use rlibv.Qps.Doorbell.{
  DoorbellHelper, new, next, freeze, freeze_done, clear, walk, sanity_check_sz,
}

-- Every request but the last one points at the one behind it.
pub record Linked (n : ℕ) (d : DoorbellHelper) : Type 0 where
  pub sized : length d.nexts ≡ n
  pub links : (i : ℕ) → suc i < n → get_elem? d.nexts i ≡ some (some (suc i))
  pub bounded : d.count ≤ n

walk-places :
    (n left : ℕ) (nexts : Nexts) (at i k : ℕ)
    → k < left
    → ((j : ℕ) → j < k → get_elem? nexts (at + j) ≡ some (some (suc (at + j))))
    → get_elem? nexts (at + k) ≡ some none
    → walk n left nexts at i ≡ some (i + suc k)
unfolding walk
walk-places n zero nexts at i k h links last = absurd (omega arith)
walk-places n (suc left) nexts at i zero h links last =
    rw (ap (get_elem? nexts) here ∙ last, walk) (ap some (omega arith))
  where
    here : at ≡ at + 0
    here = omega arith
walk-places n (suc left) nexts at i (suc k) h links last =
    rw (ap (get_elem? nexts) here ∙ links 0 (omega arith), walk)
      (rw (ap (λ (m : ℕ). walk n left nexts m (i + 1)) (ap suc (sym here))) (
        walk-places n left nexts (suc at) (i + 1) k (omega arith) step
          (ap (get_elem? nexts) (move k) ∙ last)
        ∙ ap some (omega arith)))
  where
    here : at ≡ at + 0
    here = omega arith

    move : (j : ℕ) → suc at + j ≡ at + suc j
    move j = omega arith

    step : (j : ℕ) → j < k → get_elem? nexts (suc at + j) ≡ some (some (suc (suc at + j)))
    step j lt =
        ap (get_elem? nexts) (move j)
        ∙ links (suc j) (omega arith)
        ∙ ap (λ (m : ℕ). some (some (suc m))) (sym (move j))

zero_add : (j : ℕ) → 0 + j ≡ j
zero_add j = omega arith

abbrev frozen : DoorbellHelper → DoorbellHelper
frozen d = record d { nexts = set d.nexts (d.count - 1) none }

module _ (n : ℕ) (d : DoorbellHelper) (h : Linked n d) (some_pending : 0 < d.count) where
  frozen_links :
      (j : ℕ) → j < d.count - 1 → get_elem? (set d.nexts (d.count - 1) none) j ≡ some (some (suc j))
  frozen_links j lt =
      get_elem?-set_ne d.nexts (d.count - 1) j none (λ e. omega arith)
      ∙ h.links j (omega (arith, h.bounded))

  frozen_last : get_elem? (set d.nexts (d.count - 1) none) (d.count - 1) ≡ some none
  frozen_last = get_elem?-set_self d.nexts (d.count - 1) none (omega (arith, h.bounded, h.sized))

  abbrev cleared : DoorbellHelper
  cleared = record d {
    nexts = set (set d.nexts (d.count - 1) none) (d.count - 1) (some d.count);
    count = 0;
  }

  cleared-Linked : Linked n cleared
  cleared-Linked = record {
    sized =
        length-set (set d.nexts (d.count - 1) none) (d.count - 1) (some d.count)
        ∙ length-set d.nexts (d.count - 1) none
        ∙ h.sized;
    links = λ i lt. elim (ℕ_discrete (d.count - 1) i) [
      | yes same ↦
          ap (get_elem? cleared.nexts) (sym same)
          ∙ get_elem?-set_self (set d.nexts (d.count - 1) none) (d.count - 1) (some d.count)
              (omega (arith, h.bounded, h.sized, length-set d.nexts (d.count - 1) none))
          ∙ ap (λ (m : ℕ). some (some m)) (omega arith)
      | no ne ↦
          get_elem?-set_ne (set d.nexts (d.count - 1) none) (d.count - 1) i (some d.count) ne
          ∙ get_elem?-set_ne d.nexts (d.count - 1) i none ne
          ∙ h.links i lt
    ];
    bounded = omega arith;
  }

  -- A linked batch with some requests pending is frozen to a chain that the device reads as
  -- exactly those requests, in order, and `sanity_check_sz` counts them. Clearing it then leaves
  -- an empty batch that is linked again, up to its last pointer.
  pub freeze-clear :
      (d' : DoorbellHelper) × (d'' : DoorbellHelper) × (freeze n d ≡ some d')
      × (chain n d'.nexts 0 ≡ some (places (λ j. j) d.count))
      × (sanity_check_sz n d' ≡ some d.count)
      × (clear n d' ≡ some d'')
      × Linked n d''
      × (d''.count ≡ 0)
  unfolding freeze clear freeze_done sanity_check_sz
  freeze-clear = (
    frozen d,
    cleared,
    ground arith,
    chain-places n (frozen d).nexts (λ j. j) (d.count - 1) (omega (arith, h.bounded)) frozen_links
          frozen_last
        ∙ ap (λ (m : ℕ). some (places (λ j. j) m)) pending,
    ground (arith, counted),
    ground arith,
    cleared-Linked,
    refl,
  )
    where
      pending : suc (d.count - 1) ≡ d.count
      pending = omega arith

      counted : walk n n (set d.nexts (d.count - 1) none) 0 0 ≡ some d.count
      counted =
          walk-places n n (set d.nexts (d.count - 1) none) 0 0 (d.count - 1)
            (omega (arith, h.bounded)) (λ j lt. rw (zero_add j) (frozen_links j lt))
            (rw (zero_add (d.count - 1)) frozen_last)
          ∙ ap some (omega arith)

-- A linked batch stays linked as `next` adds a request or refuses.
pub next-Linked : (n : ℕ) (d : DoorbellHelper) → Linked n d → Linked n (next n d).1
unfolding next
next-Linked n d h = record {
  sized = ground (arith, h.sized);
  links = same_links;
  bounded = ground (arith, h.bounded);
}
  where
    same_links : (i : ℕ) → suc i < n → get_elem? (next n d).1.nexts i ≡ some (some (suc i))
    same_links i lt = ground (arith, h.links i lt)

-- A new batch is linked.
pub new-Linked : (n op : ℕ) → Linked n (new n op)
unfolding new
new-Linked n op = record {
  sized = length-ring_from 0 n;
  links = λ i lt. get_elem?-ring_from 0 n i (omega arith) ∙ ground arith;
  bounded = omega arith;
}
