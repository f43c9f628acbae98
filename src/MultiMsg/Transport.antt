-- ===== src/MultiMsg/Transport.antt =====
-- A `MultiMsg` read back from a receive buffer: `create_from` of core/bootstrap/multi_msg.hh.
use rlibv.Base.{
  ℕ, zero, suc, ◌+◌, ◌≤◌, ◌≡◌, refl, sym, ap, ◌∙◌, some, List, [], ◌∷◌, ◌++◌, append_assoc, length,
  arith, true, length-append, drop-append,
}
use rlibv.Marshal.{ByteBuffer, dump, read_object}
use rlibv.Marshal.RoundTrip.{Fits, length-dump, read_object-dump}
use rlibv.MultiMsg.{
  MsgEntry, header_layout, header_sz, MultiMsg, buf, size, create_from, sanity_check, entry_fields,
  of_entry_fields,
}
use rlibv.MultiMsg.Layout.{concat, AreWords, Holds}
use rlibv.MultiMsg.Append.{sanity_check-Holds}

abbrev entry_widths : ℕ → List ℕ
entry_widths zero = []
entry_widths (suc n) = 2 ∷ 2 ∷ entry_widths n

Fits-entry_fields :
    (n : ℕ) (es : List MsgEntry)
    → length es ≡ n
    → AreWords es
    → Fits (entry_widths n) (entry_fields es)
Fits-entry_fields zero [] l w = tt
Fits-entry_fields zero (e ∷ es) l w = absurd (omega arith)
Fits-entry_fields (suc n) [] l w = absurd (omega arith)
Fits-entry_fields (suc n) (e ∷ es) l w = (w.0, (w.1, Fits-entry_fields n es (omega arith) w.2))

of_entry_fields-entry_fields : (es : List MsgEntry) → of_entry_fields (entry_fields es) ≡ es
of_entry_fields-entry_fields [] = refl
of_entry_fields-entry_fields (e ∷ es) = ap (◌∷◌ e) (of_entry_fields-entry_fields es)

-- The header's bytes give the header back.
header_read :
    {m : MultiMsg} {msgs : List ByteBuffer} {pad : ByteBuffer} (rest : ByteBuffer)
    → Holds m msgs pad
    → read_object header_layout (dump header_layout m.header ++ rest) ≡ m.header
header_read {m} rest h =
    read_object-dump header_layout m.header rest
      (ground (arith, h.count, h.few), Fits-entry_fields 8 m.header.entries h.slots h.words)
      (λ i. record {
        num = m.header.num;
        entries = of_entry_fields-entry_fields m.header.entries i;
      })

-- What the receiver has: the sender's message, with the rest of its buffer behind it.
unfoldable pub received : MultiMsg → ByteBuffer → MultiMsg
received m rest = record {
  header = m.header;
  body = m.body ++ rest;
  reserved = size m + length rest;
}

pub received-Holds :
    {m : MultiMsg} {msgs : List ByteBuffer} {pad : ByteBuffer} (rest : ByteBuffer)
    → Holds m msgs pad
    → Holds (received m rest) msgs (pad ++ rest)
unfolding received
received-Holds {m} {msgs} {pad} rest h = record {
  count = h.count;
  few = h.few;
  slots = h.slots;
  words = h.words;
  placed = h.placed;
  content = ap (λ b. b ++ rest) h.content ∙ append_assoc (concat msgs) pad rest;
  bounded = h.bounded;
}

buf_parts :
    (m : MultiMsg) (rest : ByteBuffer)
    → buf m ++ rest ≡ dump header_layout m.header ++ (m.body ++ rest)
unfolding buf
buf_parts m rest = append_assoc (dump header_layout m.header) m.body rest

-- A buffer that begins with a sent message, whatever follows it, is accepted within the capacity,
-- and what is created from it holds the same messages.
pub create_from-buf :
    (max_sz : ℕ) {m : MultiMsg} {msgs : List ByteBuffer} {pad : ByteBuffer} (rest : ByteBuffer)
    → Holds m msgs pad
    → size m + length rest ≤ max_sz
    → create_from max_sz (buf m ++ rest) ≡ some (received m rest)
unfolding create_from size buf received
create_from-buf max_sz {m} {msgs} {pad} rest h fits =
    rw (buf_parts, header_read (m.body ++ rest) h)
      (ground (
        arith,
        accepted,
        whole,
        drop-append header_sz (dump header_layout m.header) (m.body ++ rest)
            (length-dump header_layout m.header),
      ))
  where
    accepted :
        sanity_check m.header (length (dump header_layout m.header ++ (m.body ++ rest))) ≡ true
    accepted = sanity_check-Holds (received-Holds rest h)

    whole : length (dump header_layout m.header ++ (m.body ++ rest)) ≡ size m + length rest
    whole = ap length (sym (buf_parts m rest)) ∙ length-append (buf m) rest
