-- ===== src/Tls/ServerHello/Outcomes.antt =====
-- How `parse_server_hello` of src/connectcoin_p2c_tools/tls13.py ends.
use connectcoin_p2c_tools.Common.{
  ℕ, zero, suc, ◌+◌, ◌-◌, ◌≤◌, ◌<◌, ◌≡◌, ◌≢◌, ◌⊎◌, ap, ◌∙◌, inl, inr, refl, true, ◌&&◌, ◌||◌, not,
  [], ◌∷◌, ltb, ◌==◌, ◌!=◌, length, drop, bytes_eq, elem, Bytes, from_be, be_bytes, bytes_eq→eq,
  ==→eq, Bool-cases, &&-eq_true, arith,
}
use connectcoin_p2c_tools.Common.Outcome.{
  ok, raises, tls_generation, Ensures, Ensures-weaken, holds, Ensures-ok, Ensures-bind,
  Ensures-require, returns_or_rejects,
}
use connectcoin_p2c_tools.Protocol.Constants.{
  server_hello, ext_supported_versions, ext_key_share, group_x25519, tls_1_2, tls_1_3,
  hello_retry_request_random,
}
use connectcoin_p2c_tools.Protocol.Reader.{slice}
use connectcoin_p2c_tools.Protocol.Extensions.{Extensions, has_key, has_all, index}
use connectcoin_p2c_tools.Protocol.ServerHello.{keys_are, keys_within, sha256_suites}
use connectcoin_p2c_tools.Tls.Build.Encoding.{u16_bytes-ok}
use connectcoin_p2c_tools.Tls.ServerHello.Lists.{parse_extensions-Ensures}
use connectcoin_p2c_tools.Tls.ServerHello.Form.{Selects, Selects-size, IsCut, frames}
use connectcoin_p2c_tools.Protocol.ServerHello.Sound.{bytes_ne}
use connectcoin_p2c_tools.Protocol.Format.{Handshake}
use connectcoin_p2c_tools.Tls.ServerHello.{
  byte_at, selected_key, parse_body, first_byte_is, parse_server_hello,
}

byte_at-found : (bs : Bytes) (i : ℕ) → i < length bs → (b : ℕ) × (byte_at bs i ≡ ok b)
unfolding byte_at
byte_at-found [] i h = absurd (omega arith)
byte_at-found (b ∷ bs) zero h = (b, refl)
byte_at-found (b ∷ bs) (suc i) h = byte_at-found bs i (omega arith)

index-found : (k : ℕ) (d : Extensions) → has_key k d ≡ true → (v : Bytes) × (index d k ≡ ok v)
unfolding has_key index
index-found k [] h = cc
index-found k ((j, v) ∷ d) h = elim (Bool-cases (j == k)) [
  | inl e ↦ (v, rw e refl)
  | inr e ↦ let (w, found) = index-found k d (rw e at h) in (w, rw (e, found) refl)
]

both_keys :
    (d : Extensions)
    → keys_are (ext_supported_versions ∷ ext_key_share ∷ []) d ≡ true
    → (has_key ext_supported_versions d ≡ true) × (has_key ext_key_share d ≡ true)
unfolding has_all
both_keys d h =
    let (within, all) =
      &&-eq_true (keys_within (ext_supported_versions ∷ ext_key_share ∷ []) d)
        (has_all (ext_supported_versions ∷ ext_key_share ∷ []) d) h in
    let (v, more) =
      &&-eq_true (has_key ext_supported_versions d) (has_key ext_key_share d && true) all in
    (v, (&&-eq_true (has_key ext_key_share d) true more).0)

selected_key-Ensures : (d : Extensions) → Ensures tls_generation (Selects d) (selected_key d)
unfolding selected_key
selected_key-Ensures d =
    Ensures-require (keys_are (ext_supported_versions ∷ ext_key_share ∷ []) d)
      λ (two : keys_are (ext_supported_versions ∷ ext_key_share ∷ []) d ≡ true).
        let (v, s) = both_keys d two in
        let (version, e₁) = index-found ext_supported_versions d v in
        let (share, e₂) = index-found ext_key_share d s in
        rw (e₁, u16_bytes-ok tls_1_3 (omega arith), e₂)
          (Ensures-require (bytes_eq version (3 ∷ 4 ∷ []))
            λ (a : bytes_eq version (3 ∷ 4 ∷ []) ≡ true).
              Ensures-require
                (not (ltb (length share) 4 || from_be (slice share 0 2) != group_x25519))
                λ (b : not (ltb (length share) 4 || from_be (slice share 0 2) != group_x25519)
                    ≡ true).
                  Ensures-require
                    (not (
                      from_be (slice share 2 4) != 32
                      || length share != from_be (slice share 2 4) + 4))
                    λ (c : not (
                          from_be (slice share 2 4) != 32
                          || length share != from_be (slice share 2 4) + 4)
                        ≡ true).
                      holds (record {
                        only_two = two;
                        selects_tls_1_3 =
                            e₁ ∙ ap (λ (x : Bytes). ok x) (bytes_eq→eq version (3 ∷ 4 ∷ []) a);
                        share = share;
                        share_at = e₂;
                        group = ground arith;
                        size_is = ground arith;
                        size = ground arith;
                        key_is = refl;
                      }))

-- The body is cut at its positions, and a key is selected.
abbrev Answers : Bytes → Bytes → ℕ × Bytes → Type 0
Answers body session (suite, key) =
    (size : ℕ) × (found : Extensions) × IsCut body session size suite found × Selects found key

parse_body-Ensures :
    (body session : Bytes)
    → 38 ≤ length body
    → slice body 0 2 ≡ be_bytes 2 tls_1_2
    → slice body 2 34 ≢ hello_retry_request_random
    → Ensures tls_generation (Answers body session) (parse_body body session)
unfolding parse_body
parse_body-Ensures body session large version random =
    let (size, e₁) = byte_at-found body 34 (omega arith) in
    let suite = from_be (slice body (35 + size) (35 + size + 2)) in
    rw e₁ (
      Ensures-require (not (ltb 32 size || ltb (length body - 35) (size + 5)))
        λ (a : not (ltb 32 size || ltb (length body - 35) (size + 5)) ≡ true).
          Ensures-require (bytes_eq (slice body 35 (35 + size)) session)
            λ (b : bytes_eq (slice body 35 (35 + size)) session ≡ true).
              Ensures-require (elem suite sha256_suites) λ (c : elem suite sha256_suites ≡ true).
                let room : 35 + size + 5 ≤ length body = ground arith in
                let (compression, e₂) = byte_at-found body (35 + size + 2) (omega arith) in
                rw e₂ (
                  Ensures-require (compression == 0) λ (d : (compression == 0) ≡ true).
                    Ensures-require
                      (length body - (35 + size + 5)
                        == from_be (slice body (35 + size + 3) (35 + size + 5)))
                      λ (f : (length body - (35 + size + 5)
                            == from_be (slice body (35 + size + 3) (35 + size + 5)))
                          ≡ true).
                        Ensures-bind (parse_extensions-Ensures (drop (35 + size + 5) body))
                          λ found (list, fresh).
                            Ensures-bind (selected_key-Ensures found) λ key selects. holds (
                              size,
                              found,
                              record {
                                room = room;
                                small = ground arith;
                                version = version;
                                random = random;
                                size_at = e₁;
                                session_at = bytes_eq→eq (slice body 35 (35 + size)) session b;
                                suite_at = refl;
                                supported = c;
                                null_at = e₂ ∙ ap (λ (x : ℕ). ok x) (==→eq compression 0 d);
                                rest_size = ==→eq _ _ f;
                                list = list;
                                fresh = fresh;
                              },
                              selects,
                            )))

module _ (message expected_session_id : Bytes) where
  -- The message is the framed body, and the body answers.
  abbrev IsAnswer : ℕ × Bytes → Type 0
  IsAnswer answer =
      Handshake server_hello (drop 4 message) message
      × Answers (drop 4 message) expected_session_id answer

  pub parse_server_hello-Ensures :
      Ensures tls_generation IsAnswer (parse_server_hello message expected_session_id)
  unfolding parse_server_hello
  parse_server_hello-Ensures =
      let body = drop 4 message in
      Ensures-require (not (ltb (length message) 4 || not (first_byte_is server_hello message)))
        λ (a : not (ltb (length message) 4 || not (first_byte_is server_hello message)) ≡ true).
          Ensures-require (from_be (slice message 1 4) == length message - 4)
            λ (b : (from_be (slice message 1 4) == length message - 4) ≡ true).
              rw (u16_bytes-ok tls_1_2 (omega arith)) (
                Ensures-require
                  (not (ltb (length body) 38 || not (bytes_eq (slice body 0 2) (3 ∷ 3 ∷ []))))
                  λ (c : not (ltb (length body) 38 || not (bytes_eq (slice body 0 2) (3 ∷ 3 ∷ [])))
                      ≡ true).
                    Ensures-require (not (bytes_eq (slice body 2 34) hello_retry_request_random))
                      λ (d : not (bytes_eq (slice body 2 34) hello_retry_request_random) ≡ true).
                        Ensures-weaken
                          (λ answer form.
                            (frames message (ground arith) (ground arith) (==→eq _ _ b), form))
                          (parse_body-Ensures body expected_session_id (ground arith)
                            (bytes_eq→eq (slice body 0 2) (3 ∷ 3 ∷ []) (ground arith))
                            (bytes_ne (slice body 2 34) hello_retry_request_random d)))

  -- On every message and session id, the ServerHello parser of the TLS client returns one of the
  -- two cipher suites with a key of 32 bytes or raises TLSGenerationError; it raises no IndexError
  -- and no KeyError, and its loop ends.
  pub parse_server_hello_total :
      ((suite : ℕ) × (key : Bytes) × (parse_server_hello message expected_session_id
          ≡ ok (suite, key))
        × (elem suite sha256_suites ≡ true)
        × (length key ≡ 32))
      ⊎ (parse_server_hello message expected_session_id ≡ raises tls_generation)
  parse_server_hello_total = elim (returns_or_rejects parse_server_hello-Ensures) [
    | inl ((suite, key), e) ↦
        let (_, (size, found, cut, selects)) = Ensures-ok parse_server_hello-Ensures e in
        inl (suite, key, e, cut.supported, Selects-size selects)
    | inr e ↦ inr e
  ]
