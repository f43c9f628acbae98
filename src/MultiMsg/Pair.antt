-- ===== src/MultiMsg/Pair.antt =====
-- Two messages put into a fresh `MultiMsg`, as the RPC of core/bootstrap/srpc.hh does with a header
-- and its payload.
use rlibv.Base.{
  ℕ, ◌+◌, ◌≤◌, ◌<◌, ◌≡◌, true, false, [], ◌∷◌, length, u16_mod, u32_mod, arith, length-append, some,
  none,
}
use rlibv.Marshal.{ByteBuffer}
use rlibv.MultiMsg.{MultiMsg, header_sz, new, create_exact, append, size}
use rlibv.MultiMsg.Layout.{Holds}
use rlibv.MultiMsg.Append.{appended, append-eq-appended, appended-Holds, new-Holds, size_lem}

pub size-new : (max_sz r : ℕ) → size (new max_sz r) ≡ header_sz
unfolding new
size-new max_sz r = omega (arith, size_lem (new max_sz r))

pub size-appended : (m : MultiMsg) (a : ByteBuffer) → size (appended m a) ≡ size m + length a
unfolding appended
size-appended m a = omega (arith, size_lem m, size_lem (appended m a), length-append m.body a)

-- A message of exact size fits within the capacity, or there is none.
pub create_exact-eq-new :
    (max_sz sz : ℕ)
    → sz + header_sz ≤ max_sz
    → sz < u32_mod
    → create_exact max_sz sz ≡ some (new max_sz (sz + header_sz))
unfolding create_exact
create_exact-eq-new max_sz sz h small = ground (arith, h, small)

pub create_exact-none :
    (max_sz sz : ℕ) → max_sz < sz + header_sz → sz < u32_mod → create_exact max_sz sz ≡ none
unfolding create_exact
create_exact-none max_sz sz h small = ground (arith, h, small)

pub append_full :
    (max_sz : ℕ) (m : MultiMsg) (a : ByteBuffer)
    → max_sz < size m + length a
    → append max_sz m a ≡ (false, m)
unfolding append
append_full max_sz m a h = ground arith

module _ (max_sz r : ℕ) (a : ByteBuffer) (small : max_sz < u16_mod)
    (fits : header_sz + length a ≤ max_sz) where
  pub append_first : append max_sz (new max_sz r) a ≡ (true, appended (new max_sz r) a)
  append_first =
      append-eq-appended max_sz (new max_sz r) [] a small (new-Holds max_sz r)
        (omega (arith, size-new max_sz r)) (omega arith)

  pub append_first-Holds : Holds (appended (new max_sz r) a) (a ∷ []) []
  append_first-Holds =
      appended-Holds max_sz (new max_sz r) [] a small (new-Holds max_sz r)
        (omega (arith, size-new max_sz r)) (omega arith)

unfoldable pub pair : ℕ → ℕ → ByteBuffer → ByteBuffer → MultiMsg
pair max_sz r a b = appended (appended (new max_sz r) a) b

pub size-pair :
    (max_sz r : ℕ) (a b : ByteBuffer) → size (pair max_sz r a b) ≡ header_sz + length a + length b
unfolding pair
size-pair max_sz r a b = omega (
  arith,
  size-appended (appended (new max_sz r) a) b,
  size-appended (new max_sz r) a,
  size-new max_sz r,
)

module _ (max_sz r : ℕ) (a b : ByteBuffer) (small : max_sz < u16_mod)
    (fits : header_sz + length a + length b ≤ max_sz) where
  pub append_second : append max_sz (appended (new max_sz r) a) b ≡ (true, pair max_sz r a b)
  unfolding pair
  append_second =
      append-eq-appended max_sz _ (a ∷ []) b small
        (append_first-Holds max_sz r a small (omega arith))
        (omega (arith, size-appended (new max_sz r) a, size-new max_sz r)) (omega arith)

  -- Both stand in the message, in order.
  pub pair-Holds : Holds (pair max_sz r a b) (a ∷ b ∷ []) []
  unfolding pair
  pair-Holds =
      appended-Holds max_sz _ (a ∷ []) b small (append_first-Holds max_sz r a small (omega arith))
        (omega (arith, size-appended (new max_sz r) a, size-new max_sz r)) (omega arith)
