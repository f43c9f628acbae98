-- ===== src/Bench/FastRandom.antt =====
-- tests/random.hh: `FastRandom`, of which the benchmarks use `next`. An `unsigned long` has 64 bits.
use Prim.Native.Nat.{bit_xor}
use rlibv.Base.{ℕ, ◌+◌, ◌-◌, ◌*◌, ◌/◌, ◌%◌, ◌^◌, u32_mod, u64_mod}

pub record FastRandom : Type 0 where
  pub seed : ℕ

-- `set_seed0`, which both constructors call
unfoldable pub with_seed0 : ℕ → FastRandom
with_seed0 seed = record { seed = bit_xor seed 0x5DEECE66D % 2 ^ 48 }

-- the private `next`, for at most 32 bits
unfoldable pub next_bits : FastRandom → ℕ → ℕ × FastRandom
next_bits r bits =
    let seed : ℕ = ((r.seed * 0x5DEECE66D + 0xB) % u64_mod) % 2 ^ 48 in
    (seed / 2 ^ (48 - bits), record { seed = seed })

-- The operands of the sum are drawn in an order that C++ leaves open; here the left one is the first.
unfoldable pub next : FastRandom → ℕ × FastRandom
unfolding next_bits
next r =
    let (high, r₁) = next_bits r 32 in
    let (low, r₂) = next_bits r₁ 32 in ((high * u32_mod % u64_mod + low) % u64_mod, r₂)
