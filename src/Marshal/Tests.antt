-- ===== src/Marshal/Tests.antt =====
-- Runs of core/utils/marshal.hh on a struct of a `u32` and a `u16`.
use rlibv.Base.{ℕ, ◌≡◌, refl, some, [], ◌∷◌, ◌++◌, get_or, arith}
use rlibv.Marshal.{Packed, dump, dedump}
use rlibv.Marshal.RoundTrip.{dedump-dump}

record Sample : Type 0 where
  a : ℕ
  b : ℕ

abbrev sample_layout : Packed Sample
sample_layout = record {
  widths = 4 ∷ 2 ∷ [];
  fields = λ t. t.a ∷ t.b ∷ [];
  of_fields = λ vs. record { a = get_or vs 0 0; b = get_or vs 1 0 };
}

abbrev sample : Sample
sample = record { a = 0x12345678; b = 0x9abc }

sample_bytes : dump sample_layout sample ≡ 0x78 ∷ 0x56 ∷ 0x34 ∷ 0x12 ∷ 0xbc ∷ 0x9a ∷ []
unfolding dump
sample_bytes = refl

dedump-dump_example : dedump sample_layout (dump sample_layout sample ++ (7 ∷ [])) ≡ some sample
dedump-dump_example =
    dedump-dump sample_layout sample (7 ∷ []) (omega arith, (omega arith, tt)) refl
