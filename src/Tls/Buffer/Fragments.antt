-- ===== src/Tls/Buffer/Fragments.antt =====
-- The capture loop of src/connectcoin_p2c_tools/tls13.py on messages cut into records.
use mathlib.Core.List.{flatten}
use connectcoin_p2c_tools.Common.{
  ℕ, ◌+◌, ◌≤◌, ◌<◌, ◌≡◌, refl, sym, ap, ◌∙◌, true, false, List, [], ◌∷◌, ◌++◌, append-nil, ltb,
  lt→ltb, ◌==◌, eq→==, ◌!=◌, length, length-append, drop, bytes_eq, Bytes, arith,
}
use connectcoin_p2c_tools.Common.Outcome.{Result, Exception, ok, bind_ok}
use connectcoin_p2c_tools.Tls.Buffer.{
  max_captured_handshake, expected_messages, TlsRecord, content_change_cipher_spec,
  content_handshake, content_application_data, absorb, capture_loop,
}
use connectcoin_p2c_tools.Tls.Buffer.Drained.{Ready, one_more, Waits, absorbed}

nothing_first : (b x : Bytes) → b ++ x ≡ [] → b ≡ []
nothing_first [] x e = refl
nothing_first (y ∷ b) x e = cc

module _ (validate : Bytes → Result (Unit {0})) where
  -- The records whose plaintext is handshake data, in order, and what each holds. A record for
  -- compatibility between them takes no sequence number.
  pub data Delivers (decrypt : ℕ → Bytes → Bytes → Result (ℕ × Bytes))
      : ℕ → List TlsRecord → List Bytes → Type 0 where
    delivered : {n : ℕ} → Delivers decrypt n [] []
    ignored :
        {n : ℕ} {r : TlsRecord} {rs : List TlsRecord} {fs : List Bytes}
        → r.content_type ≡ content_change_cipher_spec
        → r.fragment ≡ 1 ∷ []
        → Delivers decrypt n rs fs
        → Delivers decrypt n (r ∷ rs) fs
    opened :
        {n : ℕ} {r : TlsRecord} {rs : List TlsRecord} {f : Bytes} {fs : List Bytes}
        → r.content_type ≡ content_application_data
        → decrypt n r.header r.fragment ≡ ok (content_handshake, f)
        → Delivers decrypt (n + 1) rs fs
        → Delivers decrypt n (r ∷ rs) (f ∷ fs)

  module _ (decrypt : ℕ → Bytes → Bytes → Result (ℕ × Bytes)) (failure : Exception) where
    captures :
        (n : ℕ) (rs : List TlsRecord) (fs : List Bytes) (ts : List ℕ) (ms : List Bytes)
        (captured : List Bytes) (b : Bytes)
        → Delivers decrypt n rs fs
        → Ready validate ts ms
        → ts ≡ drop (length captured) expected_messages
        → b ++ flatten fs ≡ flatten ms
        → length (flatten ms) ≤ max_captured_handshake
        → length captured + length ms ≡ 3
        → Waits validate b ms
        → capture_loop validate decrypt failure rs n (record { captured = captured; buffer = b })
          ≡ ok (record { captured = captured ++ ms; buffer = [] })
    unfolding capture_loop absorb flatten
    captures n [] fs ts [] captured b d h t e max k w =
        let full : ltb (length captured) 3 ≡ false = ground arith in
        rw (full, append-nil captured, nothing_first b (flatten fs) e) refl
    captures n (r ∷ rs) fs ts [] captured b d h t e max k w =
        let full : ltb (length captured) 3 ≡ false = ground arith in
        rw (full, append-nil captured, nothing_first b (flatten fs) e) refl
    captures n [] [] ts (m ∷ ms) captured b delivered h t e max k w =
        absurd (omega (arith, ap length e, length-append b [], length-append m (flatten ms)))
    captures n [] (f ∷ fs) ts (m ∷ ms) captured b d h t e max k w = elim d [ ]
    captures n (r ∷ rs) fs ts (m ∷ ms) captured b (ignored ct one d) h t e max k w =
        let more : ltb (length captured) 3 ≡ true = lt→ltb (length captured) 3 (omega (arith, k)) in
        let same : bytes_eq r.fragment (1 ∷ []) ≡ true =
          ap (λ (x : Bytes). bytes_eq x (1 ∷ [])) one in
        let kind : (r.content_type == content_change_cipher_spec) ≡ true = eq→== _ _ ct in
        simp (more, kind, same) (captures n rs fs ts (m ∷ ms) captured b d h t e max k w)
    captures n (r ∷ rs) (f ∷ fs) ts (m ∷ ms) captured b (opened ct dec d) h t e max k w =
        let more : ltb (length captured) 3 ≡ true = lt→ltb (length captured) 3 (omega (arith, k)) in
        let other : (r.content_type == content_change_cipher_spec) ≡ false = ground (arith, ct) in
        let content : (r.content_type != content_application_data) ≡ false = ground (arith, ct) in
        let c = absorbed validate ts (m ∷ ms) captured b f (flatten fs) h t e max in
        let small : length (flatten c.left) ≤ max_captured_handshake =
          omega (arith, max, c.small) in
        let count : length c.captured + length c.left ≡ 3 =
          omega (arith, k, c.count, length-append captured (m ∷ ms)) in
        simp (more, other, content, dec)
          (bind_ok _ c.result (
            captures (n + 1) rs fs c.types c.left c.captured c.buffer d c.ready c.types_left c.rest
              small count c.waits
            ∙ ap (λ (x : List Bytes). ok (record { captured = x; buffer = [] })) c.parts))

    -- Where the records of the peer, decrypted in order at the sequence numbers from 0 and apart
    -- from change_cipher_spec records of one byte 1, hold handshake data that together is
    -- EncryptedExtensions, Certificate and CertificateVerify, each framed and passing its check,
    -- and of at most 65536 bytes, the capture loop returns these three messages and an empty
    -- buffer, however the data is cut into records.
    pub capture_loop-Delivers :
        (rs : List TlsRecord) (fs : List Bytes) (encrypted chain verify : Bytes)
        → Delivers decrypt 0 rs fs
        → Ready validate expected_messages (encrypted ∷ chain ∷ verify ∷ [])
        → flatten fs ≡ encrypted ++ (chain ++ verify)
        → length (encrypted ++ (chain ++ verify)) ≤ max_captured_handshake
        → capture_loop validate decrypt failure rs 0 (record { captured = []; buffer = [] })
          ≡ ok (record { captured = encrypted ∷ chain ∷ verify ∷ []; buffer = [] })
    unfolding flatten
    capture_loop-Delivers rs fs encrypted chain verify d h e max =
        let last : encrypted ++ (chain ++ verify) ≡ flatten (encrypted ∷ chain ∷ verify ∷ []) =
          ap (λ (x : Bytes). encrypted ++ (chain ++ x)) (sym (append-nil verify)) in
        captures 0 rs fs expected_messages (encrypted ∷ chain ∷ verify ∷ []) [] [] d h refl
          (e ∙ last) (omega (arith, max, ap length last)) refl (nonempty encrypted h)
      where
        nonempty :
            (m : Bytes) → Ready validate expected_messages (m ∷ chain ∷ verify ∷ []) → 0 < length m
        nonempty m (one_more (four, framed, fits) c r) = omega arith
