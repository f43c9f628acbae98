-- ===== src/Bench/DcBench/Tests.antt =====
-- Three reads from two machines, in parts of eight bytes.
use rlibv.Base.{
  ℕ, zero, suc, ◌≡◌, refl, ap, true, Option, some, none, List, [], ◌∷◌, arith, none≢some,
}
use mathlib.Core.Option.{some_inj}
use rlibv.Base.Text.{codes}
use rlibv.Proto.{RegAttr}
use rlibv.Verbs.Tests.{simple}
use rlibv.Qps.Rc.{Poll, completed}
use rlibv.Qps.Dc.{post_send, wait_one_comp}
use rlibv.Qps.Dc.Tests.{ready}
use rlibv.Qps.Dummy.{int_to_u64}
use rlibv.Bench.FastRandom.{next, next_bits}
use rlibv.Bench.Reporter.{new_statics, increment}
use rlibv.Bench.DcBench.{
  DcFlags, Remotes, DcState, split, tokens_from, dc_request, mod_of, dc_post, dc_round, dc_rounds,
}
use rlibv.Bench.DcBench.Inside.{AllRead, Fit, dc_rounds-AllRead}

-- Delimiters in a row, at the front and at the end bring no empty token.
machines : split (codes " a:1  b:2 ") (codes " ") ≡ codes "a:1" ∷ codes "b:2" ∷ []
unfolding split tokens_from
machines = refl

abbrev flags : DcFlags
flags = record {
  nic_idx = 0;
  reg_mem_name = 73;
  mem_sz = 4096;
  dc_num = 1;
  payload_sz = 8;
  machines = codes "a:1 b:2";
  worker_id = 0;
}

abbrev remotes : Remotes simple
remotes = record {
  regs =
      record { buf = 8192; sz = 4096; key = 8; lkey = 9 }
      ∷ record { buf = 65536; sz = 4096; key = 10; lkey = 11 }
      ∷ [];
  nodes =
      record { lid = 1; dct_num = 2; dc_key = 1024 }
      ∷ record { lid = 3; dct_num = 4; dc_key = 1024 }
      ∷ [];
  handlers = some 5 ∷ some 6 ∷ [];
}

abbrev mine : RegAttr
mine = record { buf = 4096; sz = 4096; key = 12; lkey = 13 }

abbrev accepted : ℕ → Option (List ℕ)
accepted n = none

abbrev polls : ℕ → List Poll
polls n = completed (record { wr_id = 0; success = true }) ∷ []

abbrev start : DcState simple
start = record {
  dcs = ready ∷ [];
  dc_idx = 0;
  rand = record { seed = 7 };
  statics = new_statics;
  sent = [];
}

abbrev run : Option (DcState simple)
run = dc_rounds simple 4 2 accepted polls flags 3 remotes mine start

abbrev left_by : Option (DcState simple) → DcState simple
left_by none = start
left_by (some s) = s

abbrev end : DcState simple
end = left_by run

runs : run ≡ some end
unfolding dc_rounds dc_round mod_of dc_post dc_request post_send wait_one_comp next next_bits
    increment int_to_u64
runs = refl

three_counted : end.statics.counter ≡ 3
unfolding dc_rounds dc_round mod_of dc_post dc_request post_send wait_one_comp next next_bits
    increment int_to_u64
three_counted = refl

regions-Fit : Fit simple flags remotes
regions-Fit zero reg e =
    omega
      (arith, ap (λ (r : RegAttr). r.buf) (some_inj.0 e), ap (λ (r : RegAttr). r.sz) (some_inj.0 e))
regions-Fit (suc zero) reg e =
    omega
      (arith, ap (λ (r : RegAttr). r.buf) (some_inj.0 e), ap (λ (r : RegAttr). r.sz) (some_inj.0 e))
regions-Fit (suc (suc i)) reg e = absurd (none≢some e)

dc_rounds-AllRead_example : AllRead simple 4 remotes end.sent
dc_rounds-AllRead_example =
    dc_rounds-AllRead simple 4 2 accepted polls flags (omega arith) (omega arith) 3 remotes mine
      start end regions-Fit tt runs
