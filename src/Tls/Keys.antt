-- ===== src/Tls/Keys.antt =====
-- The key schedule of src/connectcoin_p2c_tools/tls13.py: HKDF and the keys of the server. HMAC and
-- SHA-256 are parameters.
pub mod Sizes
use connectcoin_p2c_tools.Common.{
  ℕ, zero, suc, ◌+◌, ◌*◌, Bool, true, false, ◌&&◌, ◌||◌, not, List, [], ◌∷◌, ◌++◌, ltb, leb, ◌==◌,
  if◌then◌else◌, length, take, replicate, Bytes,
}
use connectcoin_p2c_tools.Common.Ints.{single_byte}
use connectcoin_p2c_tools.Common.Outcome.{
  Result, ok, raises, out_of_fuel, require, tls_generation, ◌>>=◌, ◌>>◌,
}
use connectcoin_p2c_tools.Hashes.{codes}
use connectcoin_p2c_tools.Protocol.Constants.{tls_aes_128_gcm_sha256, tls_chacha20_poly1305_sha256}
use connectcoin_p2c_tools.Tls.Build.{u16_bytes}

-- `key_length`, or the exception for another suite.
unfoldable pub key_length : ℕ → Result ℕ
key_length cipher_suite =
    if cipher_suite == tls_aes_128_gcm_sha256
    then ok 16
    else if cipher_suite == tls_chacha20_poly1305_sha256
    then ok 32
    else raises tls_generation

module _ (hmac : Bytes → Bytes → Bytes) where
  unfoldable pub hkdf_extract : Bytes → Bytes → Bytes
  hkdf_extract salt input_key_material = hmac salt input_key_material

  -- Each round adds a digest.
  unfoldable pub expand_loop : ℕ → Bytes → Bytes → ℕ → Bytes → Bytes → ℕ → Result Bytes
  expand_loop zero secret info size output previous counter = out_of_fuel
  expand_loop (suc fuel) secret info size output previous counter =
      if ltb (length output) size
      then (single_byte counter >>= λ encoded.
          let block = hmac secret (previous ++ (info ++ encoded)) in
          expand_loop fuel secret info size (output ++ block) block (counter + 1))
      else ok (take size output)

  -- `length` is never negative in the program.
  unfoldable pub hkdf_expand : Bytes → Bytes → ℕ → Result Bytes
  hkdf_expand secret info size = do
    require (leb size (255 * 32)) tls_generation
    expand_loop (suc size) secret info size [] [] 1

  unfoldable pub hkdf_expand_label : Bytes → Bytes → Bytes → ℕ → Result Bytes
  hkdf_expand_label secret label context size = do
    let full_label = codes "tls13 " ++ label
    require
        (not (
          not (leb 7 (length full_label) && leb (length full_label) 255)
          || (ltb 255 (length context) || ltb 0xffff size)))
        tls_generation
    encoded ← u16_bytes size
    label_size ← single_byte (length full_label)
    context_size ← single_byte (length context)
    hkdf_expand secret (encoded ++ (label_size ++ (full_label ++ (context_size ++ context)))) size

  module _ (sha256 : Bytes → Bytes) where
    unfoldable pub derive_secret : Bytes → Bytes → Bytes → Result Bytes
    derive_secret secret label transcript = hkdf_expand_label secret label (sha256 transcript) 32

    unfoldable pub derive_server_handshake_keys : Bytes → Bytes → ℕ → Result (Bytes × Bytes)
    derive_server_handshake_keys shared_secret transcript cipher_suite = do
      let zeroes = replicate 32 0
      let early_secret = hkdf_extract zeroes zeroes
      derived_secret ← derive_secret early_secret (codes "derived") []
      let handshake_secret = hkdf_extract derived_secret shared_secret
      traffic_secret ← derive_secret handshake_secret (codes "s hs traffic") transcript
      size ← key_length cipher_suite
      key ← hkdf_expand_label traffic_secret (codes "key") [] size
      iv ← hkdf_expand_label traffic_secret (codes "iv") [] 12
      ok (key, iv)
