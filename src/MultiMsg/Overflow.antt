-- ===== src/MultiMsg/Overflow.antt =====
-- What `sanity_check` of core/bootstrap/multi_msg.hh guards against, and where its `u16` offset
-- lets a message through whose entries leave the buffer.
use rlibv.Base.{
  ℕ, zero, suc, ◌+◌, ◌%◌, ◌≤◌, ◌<◌, ◌≡◌, some, List, [], ◌∷◌, get_or, u16_mod, arith, true, inl,
  inr, Option-cases,
}
use rlibv.MultiMsg.{MsgEntry, null_entry, MsgsHeader, header_sz, sanity_check, check_entries}

-- the sizes of the first `n` entries together, with no wrap
abbrev pub sum_sz : ℕ → List MsgEntry → ℕ
sum_sz zero es = 0
sum_sz (suc n) [] = 0
sum_sz (suc n) (e ∷ es) = e.sz + sum_sz n es

-- No entry of the header ends behind `sz`.
abbrev pub InBounds : MsgsHeader → ℕ → Type 0
InBounds h sz =
    (i : ℕ)
    → i < h.num
    → (get_or h.entries i null_entry).offset + (get_or h.entries i null_entry).sz ≤ sz

check_entries-bounds :
    (n : ℕ) (es : List MsgEntry) (off fin : ℕ)
    → check_entries n es off ≡ some fin
    → off + sum_sz n es < u16_mod
    → (fin ≡ off + sum_sz n es)
      × ((i : ℕ) → i < n → (get_or es i null_entry).offset + (get_or es i null_entry).sz ≤ fin)
unfolding check_entries
check_entries-bounds zero es off fin c h = (ground arith, λ i lt. absurd (omega arith))
check_entries-bounds (suc n) [] off fin c h = absurd (ground arith)
check_entries-bounds (suc n) (e ∷ es) off fin c h =
    let later =
      check_entries-bounds n es ((off + e.sz) % u16_mod) fin (ground arith) (omega arith) in
    (ground (arith, later.0), each (ground (arith, later.0)) later.1)
  where
    each :
        e.offset + e.sz ≤ fin
        → ((j : ℕ) → j < n → (get_or es j null_entry).offset + (get_or es j null_entry).sz ≤ fin)
        → (i : ℕ) → i < suc n
        → (get_or (e ∷ es) i null_entry).offset + (get_or (e ∷ es) i null_entry).sz ≤ fin
    each first later zero lt = first
    each first later (suc i) lt = later i (omega arith)

-- Where the sizes do not wrap, an accepted header has all its entries inside the buffer.
pub sanity_check-InBounds :
    (h : MsgsHeader) (sz : ℕ)
    → header_sz + sum_sz h.num h.entries < u16_mod
    → sanity_check h sz ≡ true
    → InBounds h sz
unfolding sanity_check
sanity_check-InBounds h sz small ok i lt =
    elim (Option-cases (check_entries h.num h.entries header_sz)) [
      | inl bad ↦ absurd (ground arith)
      | inr (fin, good) ↦
          ground (arith, (check_entries-bounds h.num h.entries header_sz fin good small).1 i lt)
    ]

-- two entries in a row, of sizes `a` and `b`
abbrev pub two_entries : ℕ → ℕ → List MsgEntry → MsgsHeader
two_entries a b more = record {
  num = 2;
  entries =
      record { offset = header_sz; sz = a } ∷ record { offset = header_sz + a; sz = b } ∷ more;
}

-- Two sizes whose sum wraps to at most the buffer's size are accepted, though the first entry
-- alone leaves the buffer; its end is below 2^16.
pub sanity_check_wraps :
    (a b sz : ℕ) (more : List MsgEntry)
    → header_sz + a < u16_mod
    → sz < header_sz + a
    → (header_sz + a + b) % u16_mod ≤ sz
    → (sanity_check (two_entries a b more) sz ≡ true) × ¬ InBounds (two_entries a b more) sz
unfolding sanity_check check_entries
sanity_check_wraps a b sz more small past wraps =
    (ground arith, λ all. absurd (omega (arith, all 0 (omega arith))))
