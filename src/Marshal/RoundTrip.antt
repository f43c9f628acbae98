-- ===== src/Marshal/RoundTrip.antt =====
-- What `dump` writes is what `dedump` reads: core/utils/marshal.hh.
use rlibv.Base.{
  ℕ, zero, suc, ◌/◌, ◌^◌, ◌<◌, ◌≡◌, refl, ap, ◌∙◌, none, some, List, [], ◌∷◌, ◌++◌, append-nil,
  append_assoc, length, drop, le→leb, arith, length-append, length-replicate, take-append,
  drop-append, drop-eq-nil,
}
use rlibv.Marshal.{
  ByteBuffer, alloc, le_bytes, of_le_bytes, object_bytes, object_fields, total_width, Packed,
  sizeof, dump, dedump, read_object,
}
use native.Mathlib.Nat.{pow-suc}

-- Every field's value fits the field.
abbrev pub Fits : List ℕ → List ℕ → Type 0
Fits [] [] = Unit {0}
Fits [] (v ∷ vs) = ⊥
Fits (w ∷ ws) [] = ⊥
Fits (w ∷ ws) (v ∷ vs) = (v < 256 ^ w) × Fits ws vs

length-le_bytes : (w v : ℕ) → length (le_bytes w v) ≡ w
length-le_bytes zero v = refl
length-le_bytes (suc w) v = ap suc (length-le_bytes w (v / 256))

of_le_bytes-le_bytes :
    (w v : ℕ) (rest : ByteBuffer) → v < 256 ^ w → of_le_bytes w (le_bytes w v ++ rest) ≡ v
of_le_bytes-le_bytes zero v rest h = omega arith
of_le_bytes-le_bytes (suc w) v rest h =
    omega (arith, of_le_bytes-le_bytes w (v / 256) rest (omega (arith, pow-suc 256 w)))

length-object_bytes : (ws vs : List ℕ) → length (object_bytes ws vs) ≡ total_width ws
length-object_bytes [] vs = refl
length-object_bytes (w ∷ ws) [] = omega (
  arith,
  length-append (le_bytes w 0) (object_bytes ws []),
  length-le_bytes w 0,
  length-object_bytes ws [],
)
length-object_bytes (w ∷ ws) (v ∷ vs) = omega (
  arith,
  length-append (le_bytes w v) (object_bytes ws vs),
  length-le_bytes w v,
  length-object_bytes ws vs,
)

object_fields-object_bytes :
    (ws vs : List ℕ) (rest : ByteBuffer)
    → Fits ws vs
    → object_fields ws (object_bytes ws vs ++ rest) ≡ vs
object_fields-object_bytes [] [] rest h = refl
object_fields-object_bytes [] (v ∷ vs) rest h = absurd h
object_fields-object_bytes (w ∷ ws) [] rest h = absurd h
object_fields-object_bytes (w ∷ ws) (v ∷ vs) rest h =
    rw
      (
        append_assoc (le_bytes w v) (object_bytes ws vs) rest,
        of_le_bytes-le_bytes w v (object_bytes ws vs ++ rest) h.0,
        drop-append w (le_bytes w v) (object_bytes ws vs ++ rest) (length-le_bytes w v),
      )
      (ap (◌∷◌ v) (object_fields-object_bytes ws vs rest h.1))

pub Fits-append : (ws us vs xs : List ℕ) → Fits ws vs → Fits us xs → Fits (ws ++ us) (vs ++ xs)
Fits-append [] us [] xs h k = k
Fits-append [] us (v ∷ vs) xs h k = absurd h
Fits-append (w ∷ ws) us [] xs h k = absurd h
Fits-append (w ∷ ws) us (v ∷ vs) xs h k = (h.0, Fits-append ws us vs xs h.1 k)

module _ {A : Type 0} (layout : Packed A) where
  -- The allocated characters are all overwritten.
  dump-eq-object_bytes : (t : A) → dump layout t ≡ object_bytes layout.widths (layout.fields t)
  unfolding dump alloc
  dump-eq-object_bytes t = ap (◌++◌ bytes) nothing_left ∙ append-nil bytes
    where
      bytes : ByteBuffer
      bytes = object_bytes layout.widths (layout.fields t)

      nothing_left : drop (length bytes) (alloc (sizeof layout)) ≡ []
      nothing_left = drop-eq-nil (length bytes) (alloc (sizeof layout)) (
          omega (
            arith,
            length-object_bytes layout.widths (layout.fields t),
            length-replicate {0} {A = ℕ} (sizeof layout) b'0',
          ))

  pub length-dump : (t : A) → length (dump layout t) ≡ sizeof layout
  length-dump t = rw (dump-eq-object_bytes t) (length-object_bytes layout.widths (layout.fields t))

  -- Read in place, a dumped struct comes back.
  pub read_object-dump :
      (t : A) (rest : ByteBuffer)
      → Fits layout.widths (layout.fields t)
      → layout.of_fields (layout.fields t) ≡ t
      → read_object layout (dump layout t ++ rest) ≡ t
  unfolding read_object
  read_object-dump t rest h e =
      ap (λ b. layout.of_fields (object_fields layout.widths b))
        (take-append (sizeof layout) (dump layout t) rest (length-dump t) ∙ dump-eq-object_bytes t)
      ∙ ap layout.of_fields read_back
      ∙ e
    where
      read_back :
          object_fields layout.widths (object_bytes layout.widths (layout.fields t))
          ≡ layout.fields t
      read_back = rw append-nil at (object_fields-object_bytes layout.widths (layout.fields t) [] h)

  -- A buffer that begins with a dumped struct gives the struct back, where the value of each field fits
  -- it, and the struct is what is made of its fields.
  pub dedump-dump :
      (t : A) (rest : ByteBuffer)
      → Fits layout.widths (layout.fields t)
      → layout.of_fields (layout.fields t) ≡ t
      → dedump layout (dump layout t ++ rest) ≡ some t
  unfolding dedump
  dedump-dump t rest h e =
      rw
        (le→leb (sizeof layout) (length (dump layout t ++ rest))
          (omega (arith, length-append (dump layout t) rest, length-dump t)))
        (ap some (read_object-dump t rest h e))

  -- A buffer shorter than the struct is refused.
  dedump_short : (b : ByteBuffer) → length b < sizeof layout → dedump layout b ≡ none
  unfolding dedump
  dedump_short b h = ground arith
