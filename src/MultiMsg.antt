-- ===== src/MultiMsg.antt =====
-- core/bootstrap/multi_msg.hh and multi_msg_iter.hh: several messages in one buffer, behind a
-- header with the offset and size of each.
--
-- The C++ object overlays `header` on the first bytes of `buf`. Here the two stand apart: `header`
-- is what those bytes hold and `body` what follows them, and `buf` puts them together again.
pub mod Layout
pub mod Append
pub mod Iterate
pub mod Pair
pub mod Transport
pub mod Overflow
mod Tests
use rlibv.Base.{
  ℕ, zero, suc, ◌+◌, ◌-◌, ◌*◌, ◌%◌, Bool, true, false, Option, none, some, List, [], ◌∷◌, ◌++◌,
  length, set, get_or, take, drop, replicate, ltb, leb, ◌==◌, if◌then◌else◌, u16_mod, u32_mod,
  ◌>>=◌,
}
use Prim.Native.Nat.{min, max}
use rlibv.Marshal.{ByteBuffer, Packed, sizeof, dump, substr, read_object}

-- `kMaxMsgSz` of channel.hh and `kMaxMultiMsg`
abbrev pub max_msg_sz : ℕ
max_msg_sz = 4096

abbrev pub max_multi_msg : ℕ
max_multi_msg = 8

-- Both are `u16`.
pub record MsgEntry : Type 0 where
  pub offset : ℕ
  pub sz : ℕ

abbrev pub null_entry : MsgEntry
null_entry = record { offset = 0; sz = 0 }

-- `num` is a `u8`; the array has `max_multi_msg` entries.
pub record MsgsHeader : Type 0 where
  pub num : ℕ
  pub entries : List MsgEntry

abbrev pub entry_fields : List MsgEntry → List ℕ
entry_fields [] = []
entry_fields (e ∷ es) = e.offset ∷ e.sz ∷ entry_fields es

abbrev pub of_entry_fields : List ℕ → List MsgEntry
of_entry_fields [] = []
of_entry_fields (v ∷ []) = []
of_entry_fields (o ∷ s ∷ vs) = record { offset = o; sz = s } ∷ of_entry_fields vs

abbrev pub of_header_fields : List ℕ → MsgsHeader
of_header_fields [] = record { num = 0; entries = [] }
of_header_fields (n ∷ vs) = record { num = n; entries = of_entry_fields vs }

abbrev pub header_layout : Packed MsgsHeader
header_layout = record {
  widths = 1 ∷ 2 ∷ 2 ∷ 2 ∷ 2 ∷ 2 ∷ 2 ∷ 2 ∷ 2 ∷ 2 ∷ 2 ∷ 2 ∷ 2 ∷ 2 ∷ 2 ∷ 2 ∷ 2 ∷ [];
  fields = λ h. h.num ∷ entry_fields h.entries;
  of_fields = of_header_fields;
}

-- `sizeof(MsgsHeader)`
abbrev pub header_sz : ℕ
header_sz = 33

abbrev pub null_header : MsgsHeader
null_header = record { num = 0; entries = replicate max_multi_msg null_entry }

-- `std::numeric_limits<u16>::max()`
unfoldable pub max_entry_sz : ℕ
max_entry_sz = u16_mod - 1

unfoldable pub has_free_entry : MsgsHeader → Bool
has_free_entry h = ltb h.num max_multi_msg

-- the offset behind the last entry, a `u16`
unfoldable pub next_offset : MsgsHeader → ℕ
next_offset h =
    if h.num == 0
    then header_sz
    else ((get_or h.entries (h.num - 1) null_entry).offset
        + (get_or h.entries (h.num - 1) null_entry).sz)
      % u16_mod

unfoldable pub append_one : MsgsHeader → ℕ → Bool × MsgsHeader
unfolding has_free_entry next_offset
append_one h sz =
    if has_free_entry h
    then (
      true,
      record {
        num = h.num + 1;
        entries = set h.entries h.num (record { offset = next_offset h; sz = sz });
      },
    )
    else (false, h)

-- The loop of `sanity_check` over the first `n` entries; `cur_off` is a `u16`. The result is the
-- final offset, or `none` at an entry that does not begin where the last one ended.
unfoldable pub check_entries : ℕ → List MsgEntry → ℕ → Option ℕ
check_entries zero es cur_off = some cur_off
check_entries (suc n) [] cur_off = none
check_entries (suc n) (e ∷ es) cur_off =
    let rest = check_entries n es ((cur_off + e.sz) % u16_mod) in
    if e.offset == cur_off then rest else none

unfoldable pub sanity_check : MsgsHeader → ℕ → Bool
unfolding check_entries
sanity_check h sz =
    if ltb max_multi_msg h.num then false else elim (check_entries h.num h.entries header_sz) [
      | none ↦ false
      | some cur_off ↦ leb cur_off sz
    ]

-- `reserved` is what `init` reserves, which the string's capacity is at least. `header` points into the string: where
-- it grows past its capacity it moves, and `header` is left behind. The model is of a message whose string has not moved.
pub record MultiMsg : Type 0 where
  pub header : MsgsHeader
  pub body : ByteBuffer
  pub reserved : ℕ

unfoldable pub buf : MultiMsg → ByteBuffer
buf m = dump header_layout m.header ++ m.body

-- `buf->size()`
unfoldable pub size : MultiMsg → ℕ
unfolding buf
size m = length (buf m)

-- The methods take the template's capacity `MAXSZ` first.
module _ (max_sz : ℕ) where
  -- `init`
  abbrev pub true_reserve_sz : ℕ → ℕ
  true_reserve_sz reserve_sz = min (max reserve_sz header_sz) max_sz

  -- the constructor from a size
  unfoldable pub new : ℕ → MultiMsg
  new reserve_sz = record { header = null_header; body = []; reserved = true_reserve_sz reserve_sz }

  -- `usize` has 32 bits, and `sizeof` 64.
  unfoldable pub create_exact : ℕ → Option MultiMsg
  unfolding new
  create_exact sz =
      if ltb max_sz (sz % u32_mod + header_sz) then none else some (new (sz % u32_mod + header_sz))

  -- The header is read in place, with no copy. What a buffer shorter than the header lacks is read
  -- as 0 here.
  unfoldable pub create_from : ByteBuffer → Option MultiMsg
  create_from b =
      if ltb max_sz (length b)
      then none
      else (let h = read_object header_layout b in
          if sanity_check h (length b)
          then some (record { header = h; body = drop header_sz b; reserved = length b })
          else none)

  unfoldable pub append : MultiMsg → ByteBuffer → Bool × MultiMsg
  unfolding append_one size
  append m msg =
      if ltb max_sz (size m + length msg)
      then (false, m)
      else (let (done, h) = append_one m.header (length msg % u16_mod) in
          if done then (true, record m { header = h; body = m.body ++ msg }) else (false, m))

unfoldable pub num_msg : MultiMsg → ℕ
num_msg m = m.header.num

-- the `sz` bytes from `offset` on; what lies behind the end of the buffer is left out here
unfoldable pub entry_bytes : MultiMsg → MsgEntry → ByteBuffer
unfolding buf
entry_bytes m e = substr (buf m) e.offset e.sz

-- Whether entry `idx` is there and leaves the buffer: reading it is undefined then.
unfoldable pub reads_past : MultiMsg → ℕ → Bool
unfolding num_msg size
reads_past m idx =
    if leb (num_msg m) idx
    then false
    else ltb (size m) (
        (get_or m.header.entries idx null_entry).offset
        + (get_or m.header.entries idx null_entry).sz)

-- `reads_past` has where this is undefined.
unfoldable pub query_one : MultiMsg → ℕ → Option ByteBuffer
unfolding num_msg entry_bytes
query_one m idx =
    if leb (num_msg m) idx
    then none
    else some (entry_bytes m (get_or m.header.entries idx null_entry))

-- `MsgsIter`: the message that it walks, and the position.
pub record MsgsIter : Type 0 where
  pub msgs : MultiMsg
  pub cur_idx : ℕ

unfoldable pub begin : MultiMsg → MsgsIter
begin m = record { msgs = m; cur_idx = 0 }

unfoldable pub valid : MsgsIter → Bool
unfolding num_msg
valid it = ltb it.cur_idx (num_msg it.msgs)

unfoldable pub next : MsgsIter → MsgsIter
next it = record it { cur_idx = it.cur_idx + 1 }

-- `none` is the failed assertion that the iterator is valid.
unfoldable pub cur_msg : MsgsIter → Option ByteBuffer
unfolding valid entry_bytes
cur_msg it =
    if valid it
    then some (entry_bytes it.msgs (get_or it.msgs.header.entries it.cur_idx null_entry))
    else none

-- the loop `for (MsgsIter iter(msgs); iter.valid(); iter.next())` that collects the messages;
-- the first argument is the fuel
unfoldable pub collect : ℕ → MsgsIter → Option (List ByteBuffer)
unfolding valid next cur_msg
collect zero it = none
collect (suc fuel) it =
    let rest = (cur_msg it >>= λ m. collect fuel (next it) >>= λ ms. some (m ∷ ms)) in
    if valid it then rest else some []
