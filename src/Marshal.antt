-- ===== src/Marshal.antt =====
-- core/utils/marshal.hh: buffers of bytes, and packed structs dumped into them and read back.
--
-- A `ByteBuffer` (`std::string`) is the list of its bytes. A packed struct is described by the
-- widths of its scalar fields in bytes, in order, with the values of those fields; the host is
-- little-endian. A value too wide for its field is cut to the field, as a conversion does.
pub mod RoundTrip
mod Tests
use rlibv.Base.{
  ℕ, zero, suc, ◌+◌, ◌-◌, ◌*◌, ◌/◌, ◌%◌, Bool, true, false, Option, none, some, List, [], ◌∷◌, ◌++◌,
  length, set, take, drop, replicate, ltb, leb, if◌then◌else◌,
}

abbrev pub ByteBuffer : Type 0
ByteBuffer = List ℕ

-- `alloc` fills with the character '0'.
unfoldable pub alloc : ℕ → ByteBuffer
alloc size = replicate size b'0'

-- `buf.substr(off, n)` for an offset inside the buffer
abbrev pub substr : ByteBuffer → ℕ → ℕ → ByteBuffer
substr buf off n = take n (drop off buf)

unfoldable pub forward : ByteBuffer → ℕ → Option ByteBuffer
forward buf off = if ltb off (length buf) then some (substr buf off (length buf - off)) else none

unfoldable pub safe_set_byte : ByteBuffer → ℕ → ℕ → Bool × ByteBuffer
safe_set_byte buf off byte = if ltb off (length buf) then (true, set buf off byte) else (false, buf)

-- The first bytes of `dst` replaced by `src`.
abbrev pub memcpy : ByteBuffer → ByteBuffer → ByteBuffer
memcpy dst src = src ++ drop (length src) dst

-- `w` bytes of a value, the lowest first
abbrev pub le_bytes : ℕ → ℕ → ByteBuffer
le_bytes zero v = []
le_bytes (suc w) v = (v % 256) ∷ le_bytes w (v / 256)

-- the value of the first `w` bytes; bytes that are missing count as 0
abbrev pub of_le_bytes : ℕ → ByteBuffer → ℕ
of_le_bytes zero bs = 0
of_le_bytes (suc w) [] = 0
of_le_bytes (suc w) (b ∷ bs) = b + 256 * of_le_bytes w bs

-- the bytes of an object in memory
abbrev pub object_bytes : List ℕ → List ℕ → ByteBuffer
object_bytes [] vs = []
object_bytes (w ∷ ws) [] = le_bytes w 0 ++ object_bytes ws []
object_bytes (w ∷ ws) (v ∷ vs) = le_bytes w v ++ object_bytes ws vs

abbrev pub object_fields : List ℕ → ByteBuffer → List ℕ
object_fields [] bs = []
object_fields (w ∷ ws) bs = of_le_bytes w bs ∷ object_fields ws (drop w bs)

abbrev pub total_width : List ℕ → ℕ
total_width [] = 0
total_width (w ∷ ws) = w + total_width ws

-- a struct with `__attribute__((packed))`
pub record Packed (A : Type 0) : Type 0 where
  pub widths : List ℕ
  pub fields : A → List ℕ
  pub of_fields : List ℕ → A

module _ {A : Type 0} (layout : Packed A) where
  abbrev pub sizeof : ℕ
  sizeof = total_width layout.widths

  unfoldable pub dump : A → ByteBuffer
  unfolding alloc
  dump t = memcpy (alloc sizeof) (object_bytes layout.widths (layout.fields t))

  -- the object that the first bytes of a buffer hold, with no check of the size
  unfoldable pub read_object : ByteBuffer → A
  read_object b = layout.of_fields (object_fields layout.widths (take sizeof b))

  unfoldable pub dedump : ByteBuffer → Option A
  dedump b = if leb sizeof (length b) then some (read_object b) else none

  -- `dump_null` dumps what the default constructor makes.
  unfoldable pub dump_null : A → ByteBuffer
  unfolding dump
  dump_null default_value = dump default_value
