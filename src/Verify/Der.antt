-- ===== src/Verify/Der.antt =====
-- `_der_elements`, `_der_single`, `_sha256_algorithm` and `_der_nonnegative_integer` of
-- src/connectcoin_p2c_tools/verify.py. The position in the bytes is what is left of them.
pub mod Octets
pub mod Canonical
pub mod Values
use connectcoin_p2c_tools.Common.{
  ℕ, zero, suc, ◌/◌, ◌%◌, Bool, true, false, ◌&&◌, ◌||◌, not, List, [], ◌∷◌, ltb, ◌==◌, ◌!=◌,
  if◌then◌else◌, length, is_empty, take, drop, bytes_eq, Bytes, from_be,
}
use connectcoin_p2c_tools.Common.Outcome.{
  Result, ok, raises, out_of_fuel, require, value_error, ◌>>=◌, ◌>>◌,
}

-- A tag and the bytes of the value.
abbrev pub Element : Type 0
Element = ℕ × Bytes

-- `length & 0x80`
abbrev pub is_long : ℕ → Bool
is_long size = size / 128 % 2 == 1

-- `length_bytes[0] == 0`
abbrev pub starts_with_0 : Bytes → Bool
starts_with_0 [] = false
starts_with_0 (b ∷ bs) = b == 0

-- The length of a value whose length byte is `size`, and what is left after it.
unfoldable pub der_length : ℕ → Bytes → Result (ℕ × Bytes)
der_length size rest = if not (is_long size) then ok (size, rest) else do
  let count = size % 128
  require (not (count == 0 || (ltb 4 count || ltb (length rest) count))) value_error
  let length_bytes = take count rest
  require (not (starts_with_0 length_bytes || ltb (from_be length_bytes) 128)) value_error
  ok (from_be length_bytes, drop count rest)

-- Each round takes two bytes at least.
unfoldable pub der_loop : ℕ → Bytes → Result (List Element)
der_loop zero rest = out_of_fuel
der_loop (suc fuel) [] = ok []
der_loop (suc fuel) (tag ∷ []) = raises value_error
der_loop (suc fuel) (tag ∷ size ∷ rest) = do
  require (tag % 32 != 31) value_error
  (n, left) ← der_length size rest
  require (not (ltb (length left) n)) value_error
  more ← der_loop fuel (drop n left)
  ok ((tag, take n left) ∷ more)

unfoldable pub der_elements : Bytes → Result (List Element)
der_elements encoded = der_loop (suc (length encoded)) encoded

-- The value of the one element, which has the tag.
abbrev pub only : List Element → ℕ → Result Bytes
only ((tag, value) ∷ []) expected_tag = if tag == expected_tag then ok value else raises value_error
only _ expected_tag = raises value_error

unfoldable pub der_single : Bytes → ℕ → Result Bytes
der_single encoded expected_tag = do elements ← der_elements encoded; only elements expected_tag

-- `element == (tag, value)`
abbrev pub is_element : Element → ℕ → Bytes → Bool
is_element (t, v) tag value = t == tag && bytes_eq v value

-- `_SHA256_OID_DER`
abbrev pub sha256_oid_der : Bytes
sha256_oid_der = 0x60 ∷ 0x86 ∷ 0x48 ∷ 0x01 ∷ 0x65 ∷ 0x03 ∷ 0x04 ∷ 0x02 ∷ 0x01 ∷ []

-- The test of `_sha256_algorithm` on the elements.
abbrev pub names_sha256 : List Element → Bool
names_sha256 (a ∷ []) = is_element a 0x06 sha256_oid_der
names_sha256 (a ∷ b ∷ []) = is_element a 0x06 sha256_oid_der && is_element b 0x05 []
names_sha256 _ = false

unfoldable pub sha256_algorithm : Bytes → Result Bool
sha256_algorithm encoded = do fields ← der_elements encoded; ok (names_sha256 fields)

-- `len(value) > 1 and value[0] == 0 and not value[1] & 0x80`
abbrev pub is_padded : Bytes → Bool
is_padded (a ∷ b ∷ value) = a == 0 && not (is_long b)
is_padded _ = false

-- `value[0] & 0x80`, where there is a byte.
abbrev pub is_negative : Bytes → Bool
is_negative [] = false
is_negative (b ∷ value) = is_long b

unfoldable pub der_nonnegative_integer : Bytes → Result ℕ
der_nonnegative_integer encoded = do
  value ← der_single encoded 0x02
  require (not (is_empty value || (ltb 4 (length value) || (is_negative value || is_padded value))))
      value_error
  ok (from_be value)
