-- ===== src/MultiMsg/Append.antt =====
-- Appending to a `MultiMsg` and reading it: core/bootstrap/multi_msg.hh, and the iterator of
-- core/bootstrap/multi_msg_iter.hh.
use rlibv.Base.{
  ℕ, ◌+◌, ◌≤◌, ◌<◌, ◌≡◌, refl, sym, ap, ◌∙◌, ◌⊎◌, inl, inr, some, List, [], ◌∷◌, ◌++◌, append-nil,
  length, set, get_or, get_elem?, get_elem?-eq-get_or, get_elem?-eq-none, u16_mod, arith, leb, true,
  false, length-append, length-set, Bool-cases,
}
use rlibv.Marshal.{ByteBuffer, dump}
use rlibv.Marshal.RoundTrip.{length-dump}
use rlibv.MultiMsg.{
  null_entry, header_layout, header_sz, max_multi_msg, MultiMsg, new, buf, size, append,
  next_offset, entry_bytes, query_one, reads_past, sanity_check,
}
use rlibv.MultiMsg.Layout.{
  concat, Holds, length-concat_snoc, concat_snoc, AreWords-set, Placed-snoc, Placed-last,
  substr-Placed, check_entries-Placed, Placed-inside,
}

-- A fresh message holds nothing.
pub new-Holds : (max_sz reserve_sz : ℕ) → Holds (new max_sz reserve_sz) [] []
unfolding new
new-Holds max_sz reserve_sz = ground arith

-- The header and what follows it make up the buffer.
pub size_lem : (m : MultiMsg) → size m ≡ header_sz + length m.body
unfolding size buf
size_lem m =
    omega (
      arith,
      length-append (dump header_layout m.header) m.body,
      length-dump header_layout m.header,
    )

next_offset-Holds :
    {m : MultiMsg} {msgs : List ByteBuffer} {pad : ByteBuffer}
    → Holds m msgs pad
    → next_offset m.header ≡ header_sz + length (concat msgs)
unfolding next_offset
next_offset-Holds {m} {msgs = []} h = ground arith
next_offset-Holds {m} {msgs = y ∷ ms} h =
    ground (arith, Placed-last header_sz y ms m.header.entries h.placed)

-- The state behind a successful `append`.
unfoldable pub appended : MultiMsg → ByteBuffer → MultiMsg
appended m msg = record m {
  header = record {
    num = m.header.num + 1;
    entries =
        set m.header.entries m.header.num
          (record { offset = next_offset m.header; sz = length msg });
  };
  body = m.body ++ msg;
}

-- Within the capacity and with a free entry, `append` succeeds.
pub append-eq-appended :
    (max_sz : ℕ) (m : MultiMsg) (msgs : List ByteBuffer) (msg : ByteBuffer)
    → max_sz < u16_mod
    → Holds m msgs []
    → size m + length msg ≤ max_sz
    → length msgs < max_multi_msg
    → append max_sz m msg ≡ (true, appended m msg)
unfolding append appended
append-eq-appended max_sz m msgs msg small h fits free = ground (arith, h.count, size_lem m)

pub appended-Holds :
    (max_sz : ℕ) (m : MultiMsg) (msgs : List ByteBuffer) (msg : ByteBuffer)
    → max_sz < u16_mod
    → Holds m msgs []
    → size m + length msg ≤ max_sz
    → length msgs < max_multi_msg
    → Holds (appended m msg) (msgs ++ msg ∷ []) []
unfolding appended
appended-Holds max_sz m msgs msg small h fits free = record {
  count = omega (arith, h.count, length-append msgs (msg ∷ []));
  few = omega (arith, length-append msgs (msg ∷ []));
  slots = omega (
    arith,
    h.slots,
    length-set m.header.entries m.header.num
        (record { offset = next_offset m.header; sz = length msg }),
  );
  words =
      AreWords-set m.header.entries m.header.num _ h.words
        (omega (arith, next_offset-Holds h, h.bounded)) (omega arith);
  placed = simp h.count (
      Placed-snoc header_sz msgs m.header.entries msg _ h.placed (omega (arith, h.slots))
        (next_offset-Holds h) refl);
  content = ground (
    arith,
    h.content,
    concat_snoc msgs msg,
    append-nil (concat msgs),
    append-nil (concat msgs ++ msg),
  );
  bounded = omega (
    arith,
    length-concat_snoc msgs msg,
    size_lem m,
    ap length h.content,
    length-append (concat msgs) [],
  );
}

-- The bytes of entry `i` are message `i`.
pub entry_bytes-Holds :
    {m : MultiMsg} {msgs : List ByteBuffer} {pad : ByteBuffer} (i : ℕ)
    → Holds m msgs pad
    → i < length msgs
    → entry_bytes m (get_or m.header.entries i null_entry) ≡ get_or msgs i []
unfolding entry_bytes
entry_bytes-Holds {m} {msgs} {pad} i h inside = simp h.content (
    substr-Placed (dump header_layout m.header) msgs m.header.entries pad i
      (rw (length-dump header_layout m.header) h.placed) inside)

-- Reading message `i` of a held list gives that message, and behind the last one nothing.
pub query_one-Holds :
    {m : MultiMsg} {msgs : List ByteBuffer} {pad : ByteBuffer} (i : ℕ)
    → Holds m msgs pad
    → query_one m i ≡ get_elem? msgs i
unfolding query_one
query_one-Holds {m} {msgs} {pad} i h = elim (Bool-cases (leb m.header.num i)) [
  | inl past ↦ rw past (sym (get_elem?-eq-none msgs i (ground (arith, h.count))))
  | inr inside ↦ rw inside (
      ap some (entry_bytes-Holds i h (ground (arith, h.count)))
      ∙ sym (get_elem?-eq-get_or msgs i [] (ground (arith, h.count))))
]

-- No entry of a message that holds a list leaves the buffer.
pub reads_past-Holds :
    {m : MultiMsg} {msgs : List ByteBuffer} {pad : ByteBuffer} (i : ℕ)
    → Holds m msgs pad
    → reads_past m i ≡ false
unfolding reads_past
reads_past-Holds {m} {msgs} {pad} i h = elim (Bool-cases (leb m.header.num i)) [
  | inl past ↦ rw past refl
  | inr inside ↦
      let lt : i < length msgs = ground (arith, h.count, inside) in
      let bound = Placed-inside header_sz msgs m.header.entries i h.placed lt in
      let whole : header_sz + length (concat msgs) ≤ size m =
        omega (arith, size_lem m, ap length h.content, length-append (concat msgs) pad) in
      rw inside (ground (arith, bound, whole))
]

-- `sanity_check` accepts a message that holds a list.
pub sanity_check-Holds :
    {m : MultiMsg} {msgs : List ByteBuffer} {pad : ByteBuffer}
    → Holds m msgs pad
    → sanity_check m.header (size m) ≡ true
unfolding sanity_check
sanity_check-Holds {m} {msgs} {pad} h = ground (
  arith,
  h.count,
  check_entries-Placed header_sz msgs m.header.entries h.placed h.bounded,
  size_lem m,
  ap length h.content,
  length-append (concat msgs) pad,
)

-- A message holds a list, and its string has not outgrown what was reserved for it, so that it has not moved. With
-- room for one message more in what is reserved, within the capacity, which is below 2^16, and with a free entry,
-- `append` succeeds, the message holds the appended one behind those it held, and the string has still not
-- outgrown what was reserved.
pub append-Holds :
    (max_sz : ℕ) (m : MultiMsg) (msgs : List ByteBuffer) (msg : ByteBuffer)
    → max_sz < u16_mod
    → Holds m msgs []
    → size m + length msg ≤ max_sz
    → size m + length msg ≤ m.reserved
    → length msgs < max_multi_msg
    → ((append max_sz m msg).0 ≡ true)
      × Holds (append max_sz m msg).1 (msgs ++ msg ∷ []) []
      × (size (append max_sz m msg).1 ≤ (append max_sz m msg).1.reserved)
append-Holds max_sz m msgs msg small h fits room free =
    rw (append-eq-appended max_sz m msgs msg small h fits free)
      (refl, appended-Holds max_sz m msgs msg small h fits free, appended_room)
  where
    appended_room : size (appended m msg) ≤ (appended m msg).reserved
    appended_room =
        unfold appended in
        omega (arith, room, size_lem m, size_lem (appended m msg), length-append m.body msg)

-- Past the capacity, or with no free entry, `append` fails and changes nothing.
append_refused :
    (max_sz : ℕ) (m : MultiMsg) (msg : ByteBuffer)
    → (max_sz < size m + length msg) ⊎ (max_multi_msg ≤ m.header.num)
    → append max_sz m msg ≡ (false, m)
unfolding append
append_refused max_sz m msg h = ground arith
