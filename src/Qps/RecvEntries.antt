-- ===== src/Qps/RecvEntries.antt =====
-- The ring of receive requests of core/qps/recv_helper.hh, and `post_recvs` of core/qps/mod.hh.
--
-- A pointer into the array is an index. `ibv_post_recv` is the verbs library's: it reads the chain of
-- requests from the header's on, and an argument says whether it accepts them, with the error number
-- otherwise. `usize` is 32 bits wide.
pub mod Ring
mod Tests
use rlibv.Base.{
  ℕ, zero, suc, ◌+◌, ◌-◌, ◌%◌, ◌/◌, Bool, Option, none, some, List, [], ◌∷◌, length, ◌==◌, ltb, leb,
  if◌then◌else◌, set, get_elem?, u32_mod, ◌>>=◌,
}
use rlibv.Result.{Result, make_ok, make_err}
use rlibv.Qps.WrChain.{Nexts, chain, ring_from}

-- `ibv_sge`
pub record Sge : Type 0 where
  pub addr : ℕ
  pub len : ℕ
  pub lkey : ℕ

-- The work request `i` has the scatter entry `i`, whose address is its id too.
pub record RecvEntries : Type 0 where
  pub nexts : Nexts
  pub wr_ids : List ℕ
  pub sges : List Sge
  pub header : ℕ

-- `AbsRecvAllocator::alloc_one`, on the allocator's state: an address and a key
abbrev pub Allocator : Type 0 → Type 0
Allocator S = S → ℕ → Option (ℕ × ℕ) × S

module _ {S : Type 0} (alloc_one : Allocator S) where
  -- the entries for `n` buffers; `none` is the exception of `value()`
  unfoldable pub alloc_entries : ℕ → S → ℕ → Option (List Sge × S)
  alloc_entries zero s sz = some ([], s)
  alloc_entries (suc n) s sz =
      let (res, s') = alloc_one s sz in
      let more = alloc_entries n s' sz in
      res >>= λ b.
      more >>= λ r. some (record { addr = b.0; len = sz % u32_mod; lkey = b.1 } ∷ r.0, r.1)

  -- the allocator behind those calls, of which the first that fails is the last
  unfoldable pub alloc_rest : ℕ → S → ℕ → S
  alloc_rest zero s sz = s
  alloc_rest (suc n) s sz =
      let (res, s') = alloc_one s sz in
      let more = alloc_rest n s' sz in elim res [ none ↦ s' | some b ↦ more ]

  abbrev pub addrs : List Sge → List ℕ
  addrs [] = []
  addrs (e ∷ es) = e.addr ∷ addrs es

  -- `RecvEntriesFactoryv2::create` for `n` entries
  unfoldable pub create : ℕ → S → ℕ → Option (RecvEntries × S)
  unfolding alloc_entries
  create n s msg_sz = alloc_entries n s msg_sz >>= λ r.
      some (record { nexts = ring_from 0 n; wr_ids = addrs r.0; sges = r.0; header = 0 }, r.1)

  -- `RecvEntriesFactory::create`, whose number and size of the entries are template parameters
  unfoldable pub create_static : ℕ → ℕ → S → Option (RecvEntries × S)
  unfolding alloc_entries
  create_static n entry_sz s = alloc_entries n s entry_sz >>= λ r.
      some (record { nexts = ring_from 0 n; wr_ids = addrs r.0; sges = r.0; header = 0 }, r.1)

-- the place of the last of `num` entries, in `usize`
abbrev pub tail : ℕ → RecvEntries → ℕ → ℕ
tail n r num = let t = (r.header + num + (u32_mod - 1)) % u32_mod in if leb n t then t - n else t

-- What a call of `post_recvs` leaves: its result, the requests that the device read, and the ring.
pub record Posted : Type 0 where
  pub result : Result ℕ
  pub seen : List ℕ
  pub ring : RecvEntries

-- `accepted` is `none`, or the error number. Where the device refuses, the pointer stays null. The
-- result is `none` where a pointer outside of the array is used.
unfoldable pub post_recvs : ℕ → Option ℕ → RecvEntries → ℕ → Option Posted
post_recvs n refused r num =
    let t = tail n r num in
    get_elem? r.nexts t >>= λ temp.
    (let cut = set r.nexts t none in
      chain n cut r.header >>= λ seen. some (elim refused [
        | none ↦ record {
          result = make_ok 0;
          seen = seen;
          ring = record r { nexts = set cut t temp; header = (t + 1) % n };
        }
        | some errno ↦ record {
          result = make_err errno;
          seen = seen;
          ring = record r { nexts = cut };
        }
      ]))
