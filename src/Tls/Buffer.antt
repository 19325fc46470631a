-- ===== src/Tls/Buffer.antt =====
-- `_pop_handshake` of src/connectcoin_p2c_tools/tls13.py, and the loop that empties the buffer of
-- decrypted handshake data in capture_tls13_proof.
pub mod Messages
pub mod Drained
pub mod Fragments
use connectcoin_p2c_tools.Common.{
  ℕ, zero, suc, ◌+◌, ◌*◌, ◌-◌, Bool, true, false, List, [], ◌∷◌, ◌++◌, Option, none, some, ltb, leb,
  ◌==◌, ◌!=◌, if◌then◌else◌, length, take, drop, bytes_eq, not, ◌&&◌, Bytes, from_be,
}
use connectcoin_p2c_tools.Common.Outcome.{
  Result, Exception, ok, raises, out_of_fuel, require, tls_generation, index_error, ◌>>=◌, ◌>>◌,
}
use connectcoin_p2c_tools.Protocol.Reader.{slice}
use connectcoin_p2c_tools.Protocol.Constants.{encrypted_extensions, certificate, certificate_verify}

-- `MAX_CAPTURED_HANDSHAKE`
abbrev pub max_captured_handshake : ℕ
max_captured_handshake = 64 * 1024

-- The message, if the buffer holds one, and the buffer after.
unfoldable pub pop_handshake : Bytes → Result (Option Bytes × Bytes)
pop_handshake buffer =
    let size = from_be (slice buffer 1 4) + 4 in
    if ltb (length buffer) 4
    then ok (none, buffer)
    else if ltb max_captured_handshake size
    then raises tls_generation
    else if ltb (length buffer) size
    then ok (none, buffer)
    else ok (some (take size buffer), drop size buffer)

-- `expected_messages`
abbrev pub expected_messages : List ℕ
expected_messages = encrypted_extensions ∷ certificate ∷ certificate_verify ∷ []

-- `message[0]`
abbrev pub message_type : Bytes → Result ℕ
message_type [] = raises index_error
message_type (b ∷ message) = ok b

-- What the loop has: the messages captured, and the buffer.
pub record Capture : Type 0 where
  pub captured : List Bytes
  pub buffer : Bytes

-- A P2CError of validate_certificate_message is raised again as TLSGenerationError.
abbrev pub rewrap : Result (Unit {0}) → Result (Unit {0})
rewrap (ok u) = ok u
rewrap (raises Exception.proof_format) = raises tls_generation
rewrap (raises Exception.proof_verification) = raises tls_generation
rewrap (raises Exception.tls_generation) = raises tls_generation
rewrap (raises e) = raises e
rewrap out_of_fuel = out_of_fuel

-- A record: its content type, its header, and its fragment.
pub record TlsRecord : Type 0 where
  pub content_type : ℕ
  pub header : Bytes
  pub fragment : Bytes

abbrev pub content_change_cipher_spec : ℕ
content_change_cipher_spec = 20

abbrev pub content_alert : ℕ
content_alert = 21

abbrev pub content_handshake : ℕ
content_handshake = 22

abbrev pub content_application_data : ℕ
content_application_data = 23

-- `validate` is validate_certificate_message of verify.py.
module _ (validate : Bytes → Result (Unit {0})) where
  unfoldable pub check_message : ℕ → Bytes → Result (Unit {0})
  check_message expected_type message = do
    received ← message_type message
    require (received == expected_type) tls_generation
    if expected_type == certificate then rewrap (validate message) else ok tt

  -- The inner loop, with the types that it still expects: those from `len(captured)` on.
  unfoldable pub drain : List ℕ → List Bytes → Bytes → Result Capture
  drain [] captured buffer = ok (record { captured = captured; buffer = buffer })
  drain (expected_type ∷ expected) captured buffer = pop_handshake buffer >>= λ (popped, left).
      elim popped [
        | none ↦ ok (record { captured = captured; buffer = left })
        | some message ↦
            check_message expected_type message >> drain expected (captured ++ (message ∷ [])) left
      ]

  -- From `encrypted_handshake.extend` on.
  unfoldable pub absorb : Bytes → Capture → Result Capture
  absorb fragment c = do
    require (not (ltb max_captured_handshake (length (c.buffer ++ fragment)))) tls_generation
    drain (drop (length c.captured) expected_messages) c.captured (c.buffer ++ fragment)

  -- The outer loop, on the records that _recv_record returns and the exception that it raises after
  -- them. `decrypt` is _decrypt_record with the cipher suite, the key and the iv.
  unfoldable pub capture_loop :
      (ℕ → Bytes → Bytes → Result (ℕ × Bytes))
      → Exception
      → List TlsRecord
      → ℕ
      → Capture
      → Result Capture
  capture_loop decrypt failure [] sequence c =
      if ltb (length c.captured) (length expected_messages) then raises failure else ok c
  capture_loop decrypt failure (r ∷ records) sequence c =
      if not (ltb (length c.captured) (length expected_messages))
      then ok c
      else if r.content_type == content_change_cipher_spec && bytes_eq r.fragment (1 ∷ [])
      then capture_loop decrypt failure records sequence c
      else if r.content_type != content_application_data
      then raises tls_generation
      else (decrypt sequence r.header r.fragment >>= λ (inner_type, inner_fragment).
          require (inner_type == content_handshake) tls_generation
          >> (absorb inner_fragment c >>= λ after.
              capture_loop decrypt failure records (sequence + 1) after))
