-- ===== src/Tls/Records.antt =====
-- `_record_nonce` and `_decrypt_record` of src/connectcoin_p2c_tools/tls13.py.
pub mod Nonces
use Prim.Native.Nat.{bit_xor}
use connectcoin_p2c_tools.Common.{
  ℕ, zero, suc, ◌^◌, Bool, List, [], ◌∷◌, ◌++◌, Option, none, some, ltb, ◌==◌, if◌then◌else◌,
  length, Bytes,
}
use connectcoin_p2c_tools.Common.Ints.{to_bytes_big}
use connectcoin_p2c_tools.Common.Outcome.{Result, ok, raises, require, tls_generation, ◌>>=◌, ◌>>◌}

-- `left ^ right` over `zip`, on sequences of the same length.
abbrev pub xor_bytes : Bytes → Bytes → Bytes
xor_bytes [] right = []
xor_bytes (l ∷ left) [] = []
xor_bytes (l ∷ left) (r ∷ right) = bit_xor l r ∷ xor_bytes left right

-- The sequence number is a count, so it is never negative.
unfoldable pub record_nonce : Bytes → ℕ → Result Bytes
record_nonce iv sequence = do
  require (ltb sequence (2 ^ 64)) tls_generation
  padded_sequence ← to_bytes_big (length iv) sequence
  ok (xor_bytes iv padded_sequence)

-- The last byte that is not zero, and what stands before it; none if all are zero.
unfoldable pub unpad : Bytes → Option (ℕ × Bytes)
unpad [] = none
unpad (b ∷ bs) = elim (unpad bs) [
  | some (inner_type, fragment) ↦ some (inner_type, b ∷ fragment)
  | none ↦ if b == 0 then none else some (b, [])
]

-- From `if not unpadded` on.
abbrev pub inner_content : Option (ℕ × Bytes) → Result (ℕ × Bytes)
inner_content none = raises tls_generation
inner_content (some inner) = ok inner

-- `aead` is the decryption of the package cryptography for the cipher suite, with the key, the
-- nonce, the data and the header; none where it raises InvalidTag.
unfoldable pub decrypt_record :
    (ℕ → Bytes → Bytes → Bytes → Bytes → Option Bytes)
    → ℕ
    → Bytes
    → Bytes
    → ℕ
    → Bytes
    → Bytes
    → Result (ℕ × Bytes)
decrypt_record aead cipher_suite key iv sequence header ciphertext =
    record_nonce iv sequence >>= λ nonce. elim (aead cipher_suite key nonce ciphertext header) [
      | some plaintext ↦ inner_content (unpad plaintext)
      | none ↦ raises tls_generation
    ]
