-- ===== src/Bench/Window/Balance.antt =====
-- What the loops of benchs/or_bench/client.cc and benchs/db_bench/client.cc keep, in rounds that come to their end.
use rlibv.Base.{
  ℕ, zero, suc, ◌+◌, ◌-◌, ◌%◌, ◌≤◌, ◌<◌, ◌≡◌, sym, ap, ◌∙◌, Bool, true, false, Option, some, ◌==◌,
  not, ◌&&◌, if◌then◌else◌, arith, bind_some, u32_mod,
}
use mathlib.Core.Option.{some_inj}
use mathlib.Core.Path.{subst}
use rlibv.Bench.Window.{or_loop, is_signaled, wait_if}

-- one more, and one less, in 32 bits
abbrev pub more : ℕ → ℕ
more n = (n + 1) % u32_mod

abbrev pub less : ℕ → ℕ
less n = (n + (u32_mod - 1)) % u32_mod

module _ {S : Type 0} (post : ℕ → Bool → S → Option S) (wait : S → Option S) where
  -- what posting and waiting keep
  pub or_loop-keeps :
      (J : S → Type 0)
      → ((i : ℕ) (signaled : Bool) (s s' : S) → J s → post i signaled s ≡ some s' → J s')
      → ((s s' : S) → J s → wait s ≡ some s' → J s')
      → (stride max left i or_idx : ℕ) (s s' : S) → J s
      → or_loop post wait stride max left i or_idx s ≡ some s'
      → J s'
  unfolding or_loop
  or_loop-keeps J posts waits stride max zero i or_idx s s' j e = waits s s' j e
  or_loop-keeps J posts waits stride max (suc left) i or_idx s s' j e =
      let signaled = is_signaled max or_idx in
      let (s₁, e₁, e₂) = bind_some (post i signaled s) _ s' e in
      let (s₂, e₃, e₄) = bind_some (wait_if post wait (signaled && not (i == 0)) s₁) _ s' e₂ in
      or_loop-keeps J posts waits stride max left _ _ s₂ s'
        (waited (signaled && not (i == 0)) s₁ s₂ (posts i signaled s s₁ j e₁) e₃) e₄
    where
      waited : (b : Bool) (s₁ s₂ : S) → J s₁ → wait_if post wait b s₁ ≡ some s₂ → J s₂
      waited true s₁ s₂ j e = waits s₁ s₂ j e
      waited false s₁ s₂ j e = subst J (some_inj.0 e) j

  -- Where a wait is one more, and a post is none, a loop is at least one more.
  pub or_loop-counts :
      (count : S → ℕ)
      → ((i : ℕ) (signaled : Bool) (s s' : S) → post i signaled s ≡ some s' → count s' ≡ count s)
      → ((s s' : S) → wait s ≡ some s' → count s' ≡ count s + 1)
      → (stride max left i or_idx : ℕ) (s s' : S)
      → or_loop post wait stride max left i or_idx s ≡ some s'
      → count s + 1 ≤ count s'
  unfolding or_loop
  or_loop-counts count posts waits stride max zero i or_idx s s' e = omega (arith, waits s s' e)
  or_loop-counts count posts waits stride max (suc left) i or_idx s s' e =
      let signaled = is_signaled max or_idx in
      let (s₁, e₁, e₂) = bind_some (post i signaled s) _ s' e in
      let (s₂, e₃, e₄) = bind_some (wait_if post wait (signaled && not (i == 0)) s₁) _ s' e₂ in
      omega (
        arith,
        posts i signaled s s₁ e₁,
        more_or_same (signaled && not (i == 0)) s₁ s₂ e₃,
        or_loop-counts count posts waits stride max left _ _ s₂ s' e₄,
      )
    where
      more_or_same : (b : Bool) (s₁ s₂ : S) → wait_if post wait b s₁ ≡ some s₂ → count s₁ ≤ count s₂
      more_or_same true s₁ s₂ e = omega (arith, waits s₁ s₂ e)
      more_or_same false s₁ s₂ e = omega (arith, ap count (some_inj.0 e))

  module _ (out : S → ℕ) (small : (s : S) → out s < u32_mod)
      (post-out : (i : ℕ) (signaled : Bool) (s s' : S)
        → post i signaled s ≡ some s'
        → out s' ≡ (if signaled then more (out s) else out s))
      (wait-out : (s s' : S) → wait s ≡ some s' → out s' ≡ less (out s)) where
    less-more : (n : ℕ) → n < u32_mod → less (more n) ≡ n
    less-more n h = omega arith

    later-less :
        (stride max left i or_idx : ℕ) (s s' : S)
        → 0 < i
        → or_loop post wait stride max left i or_idx s ≡ some s'
        → out s' ≡ less (out s)
    unfolding or_loop
    later-less stride max zero i or_idx s s' pos e = wait-out s s' e
    later-less stride max (suc left) i or_idx s s' pos e =
        let signaled = is_signaled max or_idx in
        let (s₁, e₁, e₂) = bind_some (post i signaled s) _ s' e in
        let (s₂, e₃, e₄) = bind_some (wait_if post wait (signaled && not (i == 0)) s₁) _ s' e₂ in
        let waits : (signaled && not (i == 0)) ≡ signaled = ground (arith, pos) in
        let same : out s₂ ≡ out s =
          by_flag signaled s₁ s₂ (post-out i signaled s s₁ e₁)
            (ap (λ b. wait_if post wait b s₁) (sym waits) ∙ e₃) in
        later-less stride max left _ _ s₂ s' (omega (arith, pos)) e₄ ∙ ap less same
      where
        by_flag :
            (b : Bool) (s₁ s₂ : S)
            → out s₁ ≡ (if b then more (out s) else out s)
            → wait_if post wait b s₁ ≡ some s₂
            → out s₂ ≡ out s
        by_flag true s₁ s₂ posted e =
            wait-out s₁ s₂ e ∙ ap less posted ∙ less-more (out s) (small s)
        by_flag false s₁ s₂ posted e = ap out (sym (some_inj.0 e)) ∙ posted

    -- Where a signaled request is one more and a wait is one less, a loop from the first round on leaves as many
    -- as there were.
    pub or_loop-balanced :
        (stride max left : ℕ) (s s' : S)
        → 0 < stride
        → or_loop post wait stride max (suc left) 0 0 s ≡ some s'
        → out s' ≡ out s
    unfolding or_loop
    or_loop-balanced stride max left s s' pos e =
        let (s₁, e₁, e₂) = bind_some (post 0 true s) _ s' e in
        later-less stride max left (0 + stride) _ s₁ s' (omega (arith, pos)) e₂
        ∙ ap less (post-out 0 true s s₁ e₁)
        ∙ less-more (out s) (small s)
