-- ===== src/Tls/ServerHello.antt =====
-- `_parse_extensions` and `parse_server_hello` of src/connectcoin_p2c_tools/tls13.py, which work on
-- slices and positions. A slice is cut off at the end of the bytes; an index there raises.
pub mod Agreement
pub mod Lists
pub mod Form
pub mod Outcomes
use connectcoin_p2c_tools.Common.{
  ℕ, zero, suc, ◌+◌, ◌-◌, Bool, true, false, ◌&&◌, ◌||◌, not, List, [], ◌∷◌, ◌++◌, Option, none,
  some, ltb, ◌==◌, ◌!=◌, if◌then◌else◌, length, drop, get_elem?, bytes_eq, elem, Bytes, from_be,
}
use connectcoin_p2c_tools.Common.Outcome.{
  Result, ok, raises, out_of_fuel, require, tls_generation, index_error, ◌>>=◌, ◌>>◌,
}
use connectcoin_p2c_tools.Protocol.Constants.{
  server_hello, ext_supported_versions, ext_key_share, group_x25519, tls_1_2, tls_1_3,
  hello_retry_request_random,
}
use connectcoin_p2c_tools.Protocol.Reader.{slice}
use connectcoin_p2c_tools.Protocol.Extensions.{Extensions, has_key, index}
use connectcoin_p2c_tools.Protocol.ServerHello.{keys_are, sha256_suites}
use connectcoin_p2c_tools.Tls.Build.{u16_bytes}

-- `b[i]`
unfoldable pub byte_at : Bytes → ℕ → Result ℕ
byte_at [] i = raises index_error
byte_at (b ∷ bs) zero = ok b
byte_at (b ∷ bs) (suc i) = byte_at bs i

-- Each round moves the position on by four at least.
unfoldable pub parse_extension_loop : ℕ → Bytes → ℕ → Extensions → Result Extensions
parse_extension_loop zero encoded position result = out_of_fuel
parse_extension_loop (suc fuel) encoded position result =
    if not (ltb position (length encoded))
    then ok result
    else if ltb (length encoded - position) 4
    then raises tls_generation
    else let extension_type = from_be (slice encoded position (position + 2)) in
      let size = from_be (slice encoded (position + 2) (position + 4)) in
      let start = position + 4 in
      if ltb (length encoded - start) size
      then raises tls_generation
      else if has_key extension_type result
      then raises tls_generation
      else parse_extension_loop fuel encoded (start + size)
          (result ++ ((extension_type, slice encoded start (start + size)) ∷ []))

unfoldable pub parse_extensions : Bytes → Result Extensions
parse_extensions encoded = parse_extension_loop (suc (length encoded)) encoded 0 []

-- From `extensions = _parse_extensions(...)` on: the selected key.
unfoldable pub selected_key : Extensions → Result Bytes
selected_key extensions = do
  require (keys_are (ext_supported_versions ∷ ext_key_share ∷ []) extensions) tls_generation
  version ← index extensions ext_supported_versions
  expected ← u16_bytes tls_1_3
  require (bytes_eq version expected) tls_generation
  key_share ← index extensions ext_key_share
  require (not (ltb (length key_share) 4 || from_be (slice key_share 0 2) != group_x25519))
      tls_generation
  let key_size = from_be (slice key_share 2 4)
  require (not (key_size != 32 || length key_share != key_size + 4)) tls_generation
  ok (drop 4 key_share)

-- From `session_size = body[position]` on.
unfoldable pub parse_body : Bytes → Bytes → Result (ℕ × Bytes)
parse_body body expected_session_id = do
  session_size ← byte_at body 34
  require (not (ltb 32 session_size || ltb (length body - 35) (session_size + 5))) tls_generation
  require (bytes_eq (slice body 35 (35 + session_size)) expected_session_id) tls_generation
  let position = 35 + session_size
  let cipher_suite = from_be (slice body position (position + 2))
  require (elem cipher_suite sha256_suites) tls_generation
  compression ← byte_at body (position + 2)
  require (compression == 0) tls_generation
  let extension_size = from_be (slice body (position + 3) (position + 5))
  require (length body - (position + 5) == extension_size) tls_generation
  extensions ← parse_extensions (drop (position + 5) body)
  key ← selected_key extensions
  ok (cipher_suite, key)

-- `message[0] != SERVER_HELLO` is looked at only where there are four bytes.
unfoldable pub first_byte_is : ℕ → Bytes → Bool
first_byte_is v [] = false
first_byte_is v (b ∷ bs) = b == v

unfoldable pub parse_server_hello : Bytes → Bytes → Result (ℕ × Bytes)
parse_server_hello message expected_session_id = do
  require (not (ltb (length message) 4 || not (first_byte_is server_hello message))) tls_generation
  require (from_be (slice message 1 4) == length message - 4) tls_generation
  let body = drop 4 message
  version ← u16_bytes tls_1_2
  require (not (ltb (length body) 38 || not (bytes_eq (slice body 0 2) version))) tls_generation
  require (not (bytes_eq (slice body 2 34) hello_retry_request_random)) tls_generation
  parse_body body expected_session_id
