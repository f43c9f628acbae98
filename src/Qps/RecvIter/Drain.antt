-- ===== src/Qps/RecvIter/Drain.antt =====
-- Walking and posting again what was received, with core/qps/recv_iter.hh and `post_recvs`.
use rlibv.Base.{
  ℕ, zero, suc, ◌+◌, ◌^◌, ◌≤◌, ◌<◌, ◌≡◌, refl, sym, ap, ◌∙◌, true, false, none, some, List, [], ◌∷◌,
  ◌++◌, length, drop, ltb, get_elem?, arith, Bool-cases, inl, inr, ◌>>=◌, get_or, drop-eq-cons,
  drop-eq-nil, get_elem?-append, get_elem?-eq-get_or, ltb→lt, lt→ltb,
}
use rlibv.Qps.WrChain.{places}
use rlibv.Qps.RecvEntries.{RecvEntries}
use rlibv.Qps.RecvEntries.Ring.{IsRing, place, post_recvs-IsRing}
use rlibv.Qps.RecvIter.{
  RecvWc, RecvIter, new, of_qp, of_cq, fill, polled, has_msgs, cur_msg, next, collect, clear, off,
}

-- what a completion tells: the immediate value and the buffer
abbrev pub message : RecvWc → ℕ × ℕ
message w = (w.imm_data, w.wr_id)

abbrev pub messages : List RecvWc → List (ℕ × ℕ)
messages [] = []
messages (w ∷ ws) = message w ∷ messages ws

-- the iterator with the completions `ws` in its array, at the place `i`
abbrev at : List RecvWc → List RecvWc → ℕ → RecvIter
at ws rest i = record {
  has_qp = true;
  has_entries = true;
  wcs = ws ++ rest;
  idx = i;
  total_msgs = some (length ws);
}

collect_end :
    (fuel : ℕ) (ws rest : List RecvWc) → collect (suc fuel) (at ws rest (length ws)) ≡ some []
unfolding collect has_msgs
collect_end fuel ws rest = ground arith

collect_step :
    (fuel i : ℕ) (ws rest : List RecvWc) (w : RecvWc)
    → i < length ws
    → get_elem? (ws ++ rest) i ≡ some w
    → collect (suc fuel) (at ws rest i)
      ≡ (collect fuel (at ws rest (i + 1)) >>= λ xs. some (message w ∷ xs))
unfolding collect has_msgs cur_msg next
collect_step fuel i ws rest w lt found = ground (arith, found)

abbrev null_wc : RecvWc
null_wc = record { wr_id = 0; imm_data = 0 }

collect_from :
    (fuel i : ℕ) (ws rest : List RecvWc)
    → i ≤ length ws
    → length ws < fuel + i
    → collect fuel (at ws rest i) ≡ some (messages (drop i ws))
collect_from zero i ws rest p q = absurd (omega arith)
collect_from (suc fuel) i ws rest p q = elim (Bool-cases (ltb i (length ws))) [
  | inl more ↦
      let inside : i < length ws = ltb→lt i (length ws) more in
      collect_step fuel i ws rest (get_or ws i null_wc) inside
        (get_elem?-append ws rest i inside ∙ get_elem?-eq-get_or ws i null_wc inside)
      ∙ rw (collect_from fuel (i + 1) ws rest (omega arith) (omega arith)) (tail_read inside)
  | inr end ↦
      let here : length ws ≡ i = ground (arith, end) in
      rw (sym here) (
        collect_end fuel ws rest
        ∙ ap (λ xs. some (messages xs)) (sym (drop-eq-nil (length ws) ws (omega arith))))
]
  where
    tail_read :
        i < length ws
        → some (message (get_or ws i null_wc) ∷ messages (drop (i + 1) ws))
          ≡ some (messages (drop i ws))
    tail_read inside =
        let e : i + 1 ≡ suc i = omega arith in
        rw (drop-eq-cons ws i null_wc inside)
          (ap (λ (m : ℕ). some (message (get_or ws i null_wc) ∷ messages (drop m ws))) e)

-- An iterator that received some messages, at most as many as the ring has entries, gives each one's
-- immediate value and buffer, in order, and ends within one step more. Clearing it where the device
-- accepts the entries posts exactly as many as were received, keeps the ring, whose header moves past
-- them, and leaves an iterator with nothing to walk.
pub collect-clear :
    (n : ℕ) (r : RecvEntries) (wcs ws : List RecvWc)
    → IsRing n r
    → 0 < length ws
    → length ws ≤ n
    → n < 2 ^ 31
    → (collect (suc (length ws)) (new wcs (some ws)) ≡ some (messages ws))
      × (it : RecvIter) × (clear n none (new wcs (some ws)) r
          ≡ some (record {
            posted = some (places (place n r.header) (length ws));
            ring = record r { header = place n r.header (length ws) };
            iter = it;
          }))
      × IsRing n (record r { header = place n r.header (length ws) })
      × (has_msgs it ≡ false)
unfolding new of_qp of_cq fill polled clear has_msgs
collect-clear n r wcs ws h pos fits small =
    let (posts, ring) = post_recvs-IsRing n r (length ws) h pos fits small in
    (
      collect_from (suc (length ws)) 0 ws (drop (length ws) wcs) (omega arith) (omega arith),
      off (at ws (drop (length ws) wcs) 0),
      rw (lt→ltb 0 (length ws) pos) (rw posts refl),
      ring,
      refl,
    )
