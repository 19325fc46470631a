-- ===== src/Tls/Keys/Sizes.antt =====
-- How many bytes the key schedule of src/connectcoin_p2c_tools/tls13.py returns.
use connectcoin_p2c_tools.Common.{
  ℕ, zero, suc, ◌+◌, ◌*◌, ◌≤◌, ◌<◌, ◌≡◌, ◌≢◌, ◌⊎◌, inl, inr, refl, ◌∙◌, false, [], ◌∷◌, ◌++◌, ltb,
  le→leb, ltb→lt, ◌==◌, ==→eq, length, length-append, length-take, take, replicate, Bytes,
  Bool-cases, arith,
}
use connectcoin_p2c_tools.Common.Outcome.{Result, ok, raises, tls_generation, bind_ok}
use connectcoin_p2c_tools.Hashes.{codes}
use connectcoin_p2c_tools.Protocol.Constants.{tls_aes_128_gcm_sha256, tls_chacha20_poly1305_sha256}
use connectcoin_p2c_tools.Tls.Build.Encoding.{u16_bytes-ok, single_byte-ok}
use connectcoin_p2c_tools.Tls.Keys.{
  key_length, hkdf_extract, expand_loop, hkdf_expand, hkdf_expand_label, derive_secret,
  derive_server_handshake_keys,
}

-- A run that returns so many bytes.
abbrev pub ReturnsBytes : ℕ → Result Bytes → Type 0
ReturnsBytes n r = (out : Bytes) × (r ≡ ok out) × (length out ≡ n)

module _ (hmac : Bytes → Bytes → Bytes)
    (digest : (key message : Bytes) → length (hmac key message) ≡ 32) where
  ReturnsBytes-expand_loop :
      (fuel : ℕ) (secret info : Bytes) (size : ℕ) (output previous : Bytes) (counter : ℕ)
      → size ≤ 255 * 32
      → length output + 32 ≡ 32 * counter
      → size < length output + fuel
      → 1 ≤ fuel
      → ReturnsBytes size (expand_loop hmac fuel secret info size output previous counter)
  unfolding expand_loop
  ReturnsBytes-expand_loop zero secret info size output previous counter bound step enough
        some_fuel =
      absurd (omega arith)
  ReturnsBytes-expand_loop (suc fuel) secret info size output previous counter bound step enough
        some_fuel =
      elim (Bool-cases (ltb (length output) size)) [
        | inl e ↦
            let block = hmac secret (previous ++ (info ++ (counter ∷ []))) in
            let longer : length (output ++ block) ≡ length output + 32 =
              length-append output block
              ∙ omega (arith, digest secret (previous ++ (info ++ (counter ∷ [])))) in
            rw (e, single_byte-ok counter (omega (arith, ltb→lt _ _ e)))
              (ReturnsBytes-expand_loop fuel secret info size (output ++ block) block (counter + 1)
                bound (omega (arith, longer)) (omega (arith, longer)) (omega (arith, ltb→lt _ _ e)))
        | inr e ↦ rw e (take size output, refl, length-take size output (ground arith))
      ]

  -- For an HMAC of 32 bytes, hkdf_expand ends and returns as many bytes as it is asked for, up to
  -- 8160.
  pub hkdf_expand-ReturnsBytes :
      (secret info : Bytes) (size : ℕ)
      → size ≤ 255 * 32
      → ReturnsBytes size (hkdf_expand hmac secret info size)
  unfolding hkdf_expand
  hkdf_expand-ReturnsBytes secret info size bound = rw (le→leb size (255 * 32) bound) (
      ReturnsBytes-expand_loop (suc size) secret info size [] [] 1 bound refl (omega arith)
        (omega arith))

  hkdf_expand_label-ReturnsBytes :
      (secret label context : Bytes) (size : ℕ)
      → 1 ≤ length label
      → length label ≤ 249
      → length context ≤ 255
      → size ≤ 255 * 32
      → ReturnsBytes size (hkdf_expand_label hmac secret label context size)
  unfolding hkdf_expand_label
  hkdf_expand_label-ReturnsBytes secret label context size some_label short_label short_context
        bound =
      let full = length-append (codes "tls13 ") label in
      let size_test : ltb 0xffff size ≡ false = ground arith in
      let context_test : ltb 255 (length context) ≡ false = ground arith in
      rw
        (
          le→leb 7 (length (codes "tls13 " ++ label)) (omega (arith, full)),
          le→leb (length (codes "tls13 " ++ label)) 255 (omega (arith, full)),
          context_test,
          size_test,
          u16_bytes-ok size (omega arith),
          single_byte-ok (length (codes "tls13 " ++ label)) (omega (arith, full)),
          single_byte-ok (length context) (omega arith),
        )
        (hkdf_expand-ReturnsBytes secret _ size bound)

  module _ (sha256 : Bytes → Bytes)
      (sha256_digest : (message : Bytes) → length (sha256 message) ≡ 32) where
    derive_secret-ReturnsBytes :
        (secret label transcript : Bytes)
        → 1 ≤ length label
        → length label ≤ 249
        → ReturnsBytes 32 (derive_secret hmac sha256 secret label transcript)
    unfolding derive_secret
    derive_secret-ReturnsBytes secret label transcript h k =
        hkdf_expand_label-ReturnsBytes secret label (sha256 transcript) 32 h k
          (omega (arith, sha256_digest transcript)) (omega arith)

    -- The size of the key of a suite that the program supports.
    abbrev KeySize : ℕ → ℕ → Type 0
    KeySize suite size =
        ((suite ≡ tls_aes_128_gcm_sha256) × (size ≡ 16))
        ⊎ ((suite ≡ tls_chacha20_poly1305_sha256) × (size ≡ 32))

    abbrev pub Derived : ℕ → Result (Bytes × Bytes) → Type 0
    Derived suite r =
        ((key iv : Bytes) × (r ≡ ok (key, iv)) × KeySize suite (length key) × (length iv ≡ 12))
        ⊎ ((r ≡ raises tls_generation)
            × (suite ≢ tls_aes_128_gcm_sha256)
            × (suite ≢ tls_chacha20_poly1305_sha256))

    key_length-cases :
        (suite : ℕ)
        → ((size : ℕ) × (key_length suite ≡ ok size) × KeySize suite size × (size ≤ 32))
          ⊎ ((key_length suite ≡ raises tls_generation)
              × (suite ≢ tls_aes_128_gcm_sha256)
              × (suite ≢ tls_chacha20_poly1305_sha256))
    unfolding key_length
    key_length-cases suite = elim (Bool-cases (suite == tls_aes_128_gcm_sha256)) [
      | inl e ↦ inl (16, rw e refl, inl (==→eq _ _ e, refl), omega arith)
      | inr e ↦ elim (Bool-cases (suite == tls_chacha20_poly1305_sha256)) [
        | inl f ↦ inl (32, rw (e, f) refl, inr (==→eq _ _ f, refl), omega arith)
        | inr f ↦ inr (rw (e, f) refl, ground (arith, e), ground (arith, f))
      ]
    ]

    -- For an HMAC and a hash of 32 bytes, the key schedule returns a key of 16 bytes for
    -- AES-128-GCM or 32 for ChaCha20-Poly1305 and an iv of 12, and raises TLSGenerationError for
    -- every other suite.
    pub derive_server_handshake_keys-Derived :
        (shared_secret transcript : Bytes) (suite : ℕ)
        → Derived suite (derive_server_handshake_keys hmac sha256 shared_secret transcript suite)
    unfolding derive_server_handshake_keys
    derive_server_handshake_keys-Derived shared_secret transcript suite =
        let zeroes : Bytes = replicate 32 0 in
        let (derived, e₁, l₁) =
          derive_secret-ReturnsBytes (hkdf_extract hmac zeroes zeroes) (codes "derived") []
            (omega arith) (omega arith) in
        let (traffic, e₂, l₂) =
          derive_secret-ReturnsBytes (hkdf_extract hmac derived shared_secret)
            (codes "s hs traffic") transcript (omega arith) (omega arith) in
        elim (key_length-cases suite) [
          | inr (e, p, q) ↦ inr (bind_ok _ e₁ (bind_ok _ e₂ (rw e refl)), p, q)
          | inl (size, e, k, small) ↦
              let (key, e₃, l₃) =
                hkdf_expand_label-ReturnsBytes traffic (codes "key") [] size (omega arith)
                  (omega arith) (omega arith) (omega arith) in
              let (iv, e₄, l₄) =
                hkdf_expand_label-ReturnsBytes traffic (codes "iv") [] 12 (omega arith)
                  (omega arith) (omega arith) (omega arith) in
              inl (
                key,
                iv,
                bind_ok _ e₁ (bind_ok _ e₂ (bind_ok _ e (bind_ok _ e₃ (bind_ok _ e₄ refl)))),
                rw l₃ k,
                l₄,
              )
        ]
