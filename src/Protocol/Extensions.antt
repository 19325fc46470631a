-- ===== src/Protocol/Extensions.antt =====
-- `_read_handshake` and `_extensions` of src/connectcoin_p2c_tools/protocol.py. The dict of
-- extensions is an association list in the order of insertion.
pub mod Sound
use connectcoin_p2c_tools.Common.{
  ℕ, zero, suc, ◌+◌, Bool, true, false, ◌&&◌, ◌||◌, not, List, [], ◌∷◌, ◌++◌, ltb, ◌==◌,
  if◌then◌else◌, length, Bytes,
}
use connectcoin_p2c_tools.Common.Outcome.{Result, ok, raises, key_error}
use connectcoin_p2c_tools.Protocol.Reader.{
  Reading, pure, ◌>>=◌, ◌>>◌, require, lift, run, remaining, empty, read, u8, u16, u24, captured,
  exhausted,
}

abbrev pub Extensions : Type 0
Extensions = List (ℕ × Bytes)

-- `k in d`
unfoldable pub has_key : ℕ → Extensions → Bool
has_key k [] = false
has_key k ((j, v) ∷ d) = j == k || has_key k d

-- `d[k]`
unfoldable pub index : Extensions → ℕ → Result Bytes
index [] k = raises key_error
index ((j, v) ∷ d) k = if j == k then ok v else index d k

-- `keys.issubset(d)`
unfoldable pub has_all : List ℕ → Extensions → Bool
has_all [] d = true
has_all (k ∷ ks) d = has_key k d && has_all ks d

-- `keys.intersection(d)` is not empty.
unfoldable pub has_any : List ℕ → Extensions → Bool
has_any [] d = false
has_any (k ∷ ks) d = has_key k d || has_any ks d

-- The handshake header and body, and the body alone.
unfoldable pub read_handshake : ℕ → ℕ → Reading (Bytes × Bytes)
read_handshake expected_type maximum_size = captured do
  message_type ← u8
  size ← u24
  require (message_type == expected_type)
  require (not (ltb maximum_size (size + 4)))
  read size

-- Each round takes four bytes at least.
unfoldable pub extension_loop : ℕ → Extensions → Reading Extensions
extension_loop zero result = exhausted
extension_loop (suc fuel) result = do
  done ← empty
  if done then pure result else do
    extension_type ← u16
    extension_size ← u16
    extension ← read extension_size
    require (not (has_key extension_type result))
    extension_loop fuel (result ++ ((extension_type, extension) ∷ []))

unfoldable pub extensions : Reading Extensions
extensions = do
  total_size ← u16
  left ← remaining
  require (left == total_size)
  encoded ← read total_size
  lift (run (extension_loop (suc (length encoded)) []) encoded)
