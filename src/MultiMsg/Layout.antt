-- ===== src/MultiMsg/Layout.antt =====
-- What it means that a `MultiMsg` of core/bootstrap/multi_msg.hh holds given messages: the invariant
-- that `append` keeps and that the readers rely on.
use rlibv.Base.{
  ℕ, zero, suc, ◌+◌, ◌≤◌, ◌<◌, ◌≡◌, refl, sym, ap, ◌∙◌, some, List, [], ◌∷◌, ◌++◌, append-nil,
  append_assoc, length, set, get_or, u16_mod, arith, length-append, take-append, drop-append,
}
use rlibv.Marshal.{ByteBuffer, substr}
use rlibv.MultiMsg.{MsgEntry, null_entry, header_sz, max_multi_msg, MultiMsg, check_entries}

abbrev pub concat : List ByteBuffer → ByteBuffer
concat [] = []
concat (m ∷ ms) = m ++ concat ms

-- The entries give the messages' places, one behind the other from `off` on.
abbrev pub Placed : ℕ → List ByteBuffer → List MsgEntry → Type 0
Placed off [] es = Unit {0}
Placed off (m ∷ ms) [] = ⊥
Placed off (m ∷ ms) (e ∷ es) = (e.offset ≡ off) × (e.sz ≡ length m) × Placed (off + length m) ms es

-- Every entry is a pair of `u16`.
abbrev pub AreWords : List MsgEntry → Type 0
AreWords [] = Unit {0}
AreWords (e ∷ es) = (e.offset < u16_mod) × (e.sz < u16_mod) × AreWords es

-- `m` holds `msgs`, with `pad` behind the last one (what the receive buffer has behind a datagram).
pub record Holds (m : MultiMsg) (msgs : List ByteBuffer) (pad : ByteBuffer) : Type 0 where
  pub count : m.header.num ≡ length msgs
  pub few : length msgs ≤ max_multi_msg
  pub slots : length m.header.entries ≡ max_multi_msg
  pub words : AreWords m.header.entries
  pub placed : Placed header_sz msgs m.header.entries
  pub content : m.body ≡ concat msgs ++ pad
  pub bounded : header_sz + length (concat msgs) < u16_mod

pub length-concat_snoc :
    (ms : List ByteBuffer) (m : ByteBuffer)
    → length (concat (ms ++ m ∷ [])) ≡ length (concat ms) + length m
length-concat_snoc [] m = omega (arith, length-append {0} m [])
length-concat_snoc (x ∷ ms) m = omega (
  arith,
  length-append x (concat (ms ++ m ∷ [])),
  length-append x (concat ms),
  length-concat_snoc ms m,
)

pub concat_snoc : (ms : List ByteBuffer) (m : ByteBuffer) → concat (ms ++ m ∷ []) ≡ concat ms ++ m
concat_snoc [] m = append-nil m
concat_snoc (x ∷ ms) m = ap (◌++◌ x) (concat_snoc ms m) ∙ sym (append_assoc x (concat ms) m)

pub AreWords-set :
    (es : List MsgEntry) (i : ℕ) (e : MsgEntry)
    → AreWords es
    → e.offset < u16_mod
    → e.sz < u16_mod
    → AreWords (set es i e)
AreWords-set [] i e w o s = tt
AreWords-set (x ∷ es) zero e w o s = (o, s, w.2)
AreWords-set (x ∷ es) (suc i) e w o s = (w.0, w.1, AreWords-set es i e w.2 o s)

-- A new entry behind the last one places one message more.
pub Placed-snoc :
    (off : ℕ) (ms : List ByteBuffer) (es : List MsgEntry) (m : ByteBuffer) (e : MsgEntry)
    → Placed off ms es
    → length ms < length es
    → e.offset ≡ off + length (concat ms)
    → e.sz ≡ length m
    → Placed off (ms ++ m ∷ []) (set es (length ms) e)
Placed-snoc off [] [] m e p h o s = absurd (omega arith)
Placed-snoc off [] (x ∷ es) m e p h o s = (omega arith, s, tt)
Placed-snoc off (y ∷ ms) [] m e p h o s = absurd p
Placed-snoc off (y ∷ ms) (x ∷ es) m e p h o s = (
  p.0,
  p.1,
  Placed-snoc (off + length y) ms es m e p.2 (omega arith)
      (omega (arith, length-append y (concat ms))) s,
)

-- The last entry ends where the messages end.
pub Placed-last :
    (off : ℕ) (y : ByteBuffer) (ms : List ByteBuffer) (es : List MsgEntry)
    → Placed off (y ∷ ms) es
    → (get_or es (length ms) null_entry).offset + (get_or es (length ms) null_entry).sz
      ≡ off + length (concat (y ∷ ms))
Placed-last off y ms [] p = absurd p
Placed-last off y [] (e ∷ es) p = omega (arith, length-append {0} y [])
Placed-last off y (z ∷ ms) (e ∷ es) p =
    omega (arith, Placed-last (off + length y) z ms es p.2, length-append y (concat (z ∷ ms)))

-- The loop of `sanity_check` accepts placed messages, and ends behind the last one.
pub check_entries-Placed :
    (off : ℕ) (ms : List ByteBuffer) (es : List MsgEntry)
    → Placed off ms es
    → off + length (concat ms) < u16_mod
    → check_entries (length ms) es off ≡ some (off + length (concat ms))
unfolding check_entries
check_entries-Placed off [] es p h = ap some (omega arith)
check_entries-Placed off (m ∷ ms) [] p h = absurd p
check_entries-Placed off (m ∷ ms) (e ∷ es) p h =
    ground (arith, length-append m (concat ms), check_entries-Placed (off + length m) ms es p.2)

-- No entry of a message leaves what the messages fill.
pub Placed-inside :
    (off : ℕ) (ms : List ByteBuffer) (es : List MsgEntry) (i : ℕ)
    → Placed off ms es
    → i < length ms
    → (get_or es i null_entry).offset + (get_or es i null_entry).sz ≤ off + length (concat ms)
Placed-inside off [] es i p h = absurd (omega arith)
Placed-inside off (m ∷ ms) [] i p h = absurd p
Placed-inside off (m ∷ ms) (e ∷ es) zero p h = omega (arith, p.0, p.1, length-append m (concat ms))
Placed-inside off (m ∷ ms) (e ∷ es) (suc i) p h = omega (
  arith,
  Placed-inside (off + length m) ms es i p.2 (omega (arith, h)),
  length-append m (concat ms),
)

-- An entry's bytes are its message.
pub substr-Placed :
    (pre : ByteBuffer) (ms : List ByteBuffer) (es : List MsgEntry) (pad : ByteBuffer) (i : ℕ)
    → Placed (length pre) ms es
    → i < length ms
    → substr (pre ++ (concat ms ++ pad)) (get_or es i null_entry).offset (get_or es i null_entry).sz
      ≡ get_or ms i []
substr-Placed pre [] es pad i p h = absurd (omega arith)
substr-Placed pre (m ∷ ms) [] pad i p h = absurd p
substr-Placed pre (m ∷ ms) (e ∷ es) pad zero p h =
    rw (p.0, p.1)
      (rw
        (
          drop-append (length pre) pre ((m ++ concat ms) ++ pad) refl,
          append_assoc m (concat ms) pad,
        )
        (take-append (length m) m (concat ms ++ pad) refl))
substr-Placed pre (m ∷ ms) (e ∷ es) pad (suc i) p h = simp append_assoc (
    simp append_assoc at
      (substr-Placed (pre ++ m) ms es pad i (rw (length-append pre m) p.2) (omega arith)))
