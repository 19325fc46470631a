-- ===== src/Tls/Capture/Loops.antt =====
-- How the loops of capture_tls13_proof (src/connectcoin_p2c_tools/tls13.py) end.
use connectcoin_p2c_tools.Common.{
  ℕ, ◌+◌, ◌^◌, ◌≤◌, ◌≡◌, ◌⊎◌, refl, sym, ap, ◌∙◌, inl, inr, Bool, true, false, List, [], ◌∷◌, ◌++◌,
  Option, none, some, ◌==◌, ◌!=◌, ◌&&◌, not, ltb, if◌then◌else◌, bytes_eq, length, drop,
  length-take, Bytes, from_be, Bool-cases, arith,
}
use connectcoin_p2c_tools.Common.Ints.{to_bytes_big}
use connectcoin_p2c_tools.Common.Outcome.{
  Result, Exception, ok, raises, tls_generation, proof_format, os_error, ◌>>◌, Ends, returns, stops,
  Ends-bind, Ends-weaken, Ends-require, Ends-equation,
}
use connectcoin_p2c_tools.Protocol.Constants.{certificate}
use connectcoin_p2c_tools.Protocol.Reader.{slice}
use connectcoin_p2c_tools.Tls.Buffer.{
  TlsRecord, Capture, pop_handshake, check_message, drain, absorb, capture_loop, expected_messages,
  max_captured_handshake, content_change_cipher_spec, content_application_data, content_handshake,
  rewrap,
}
use connectcoin_p2c_tools.Tls.Records.{record_nonce, unpad, inner_content, decrypt_record}

-- The exceptions of a capture.
abbrev pub IsCaptureError : Exception → Type 0
IsCaptureError e = (e ≡ tls_generation) ⊎ ((e ≡ proof_format) ⊎ (e ≡ os_error))

abbrev pub refused : IsCaptureError tls_generation
refused = inl refl

abbrev IsPopped : Option Bytes × Bytes → Type 0
IsPopped (none, left) = Unit
IsPopped (some message, left) = 4 ≤ length message

pub pop_handshake-Ends : (buffer : Bytes) → Ends IsCaptureError IsPopped (pop_handshake buffer)
unfolding pop_handshake
pop_handshake-Ends buffer =
    let size = from_be (slice buffer 1 4) + 4 in
    elim (Bool-cases (ltb (length buffer) 4)) [
      | inl short ↦ rw short (returns tt)
      | inr long ↦ elim (Bool-cases (ltb max_captured_handshake size)) [
        | inl big ↦ rw (long, big) (stops refused)
        | inr small ↦ elim (Bool-cases (ltb (length buffer) size)) [
          | inl part ↦ rw (long, small, part) (returns tt)
          | inr whole ↦
              rw (long, small, whole)
                (returns (omega (arith, length-take size buffer (ground arith))))
        ]
      ]
    ]

nonce-Ends :
    (iv : Bytes) (sequence : ℕ)
    → length iv ≡ 12
    → Ends IsCaptureError (λ _. Unit {0}) (record_nonce iv sequence)
unfolding record_nonce to_bytes_big
nonce-Ends iv sequence h = Ends-require (ltb sequence (2 ^ 64)) tls_generation refused λ small.
    let fits : ltb sequence (256 ^ length iv) ≡ true = rw h (ground arith) in rw fits (returns tt)

content-Ends : (o : Option (ℕ × Bytes)) → Ends IsCaptureError (λ _. Unit {0}) (inner_content o)
content-Ends none = stops refused
content-Ends (some inner) = returns tt

pub decrypt_record-Ends :
    (aead : ℕ → Bytes → Bytes → Bytes → Bytes → Option Bytes) (suite : ℕ) (key iv : Bytes)
    (sequence : ℕ) (header ciphertext : Bytes)
    → length iv ≡ 12
    → Ends IsCaptureError
        (λ _. Unit {0})
        (decrypt_record aead suite key iv sequence header ciphertext)
unfolding decrypt_record
decrypt_record-Ends aead suite key iv sequence header ciphertext h =
    Ends-bind (nonce-Ends iv sequence h) λ nonce _. opened (aead suite key nonce ciphertext header)
  where
    opened :
        (o : Option Bytes)
        → Ends IsCaptureError
            (λ _. Unit {0})
            (elim o [
              | some plaintext ↦ inner_content (unpad plaintext)
              | none ↦ raises tls_generation
            ])
    opened none = stops refused
    opened (some plaintext) = content-Ends (unpad plaintext)

-- `P2CError` and its subclasses.
abbrev pub IsP2cError : Exception → Type 0
IsP2cError e =
    (e ≡ Exception.proof_format) ⊎ ((e ≡ Exception.proof_verification) ⊎ (e ≡ tls_generation))

-- The exceptions of a capture, and others that the certificate check lets through.
abbrev pub OrElse : (Exception → Type 0) → Exception → Type 0
OrElse X e = IsCaptureError e ⊎ X e

pub or_else {ℓ} :
    {A : Type 0} {P : A → Type ℓ} {r : Result A} (X : Exception → Type 0)
    → Ends IsCaptureError P r
    → Ends (OrElse X) P r
or_else X h = Ends-weaken (λ e k. inl k) (λ a k. k) h

module _ (validate : Bytes → Result (Unit {0})) (X : Exception → Type 0)
    (validates : (m : Bytes) → Ends (λ e. IsP2cError e ⊎ X e) (λ _. Unit {0}) (validate m)) where
  -- The messages passed the checks of the types that were expected in their places.
  pub data AreChecked : List ℕ → List Bytes → Type 0 where
    none_checked : {ts : List ℕ} → AreChecked ts []
    one_checked :
        {t : ℕ} {ts : List ℕ} {m : Bytes} {ms : List Bytes}
        → check_message validate t m ≡ ok tt
        → AreChecked ts ms
        → AreChecked (t ∷ ts) (m ∷ ms)

  AreChecked-append :
      (ts : List ℕ) (ms : List Bytes) (t : ℕ) (rest : List ℕ) (m : Bytes)
      → AreChecked ts ms
      → drop (length ms) ts ≡ t ∷ rest
      → check_message validate t m ≡ ok tt
      → AreChecked ts (ms ++ (m ∷ [])) × (drop (length (ms ++ (m ∷ []))) ts ≡ rest)
  AreChecked-append [] [] t rest m h e k = absurd (omega (arith, ap length e))
  AreChecked-append (u ∷ ts) [] t rest m h e k =
      let same : t ≡ u = cc in
      (one_checked (ap (λ (x : ℕ). check_message validate x m) (sym same) ∙ k) none_checked, cc)
  AreChecked-append [] (n ∷ ms) t rest m h e k = elim h [ ]
  AreChecked-append (u ∷ ts) (n ∷ ms) t rest m (one_checked c h) e k =
      let (all, left) = AreChecked-append ts ms t rest m h e k in (one_checked c all, left)

  rewrap_other : (e : Exception) → X e → Ends (OrElse X) (λ _. Unit {0}) (rewrap (raises e))
  rewrap_other Exception.proof_format h = stops (inl refused)
  rewrap_other Exception.proof_verification h = stops (inl refused)
  rewrap_other Exception.tls_generation h = stops (inl refused)
  rewrap_other Exception.generation h = stops (inr h)
  rewrap_other Exception.value_error h = stops (inr h)
  rewrap_other Exception.key_error h = stops (inr h)
  rewrap_other Exception.index_error h = stops (inr h)
  rewrap_other Exception.overflow_error h = stops (inr h)
  rewrap_other Exception.os_error h = stops (inr h)
  rewrap_other Exception.unicode_error h = stops (inr h)
  rewrap_other Exception.json_decode_error h = stops (inr h)
  rewrap_other Exception.recursion_error h = stops (inr h)
  rewrap_other Exception.invalid_version h = stops (inr h)

  rewrap-Ends :
      {r : Result (Unit {0})}
      → Ends (λ e. IsP2cError e ⊎ X e) (λ _. Unit {0}) r
      → Ends (OrElse X) (λ _. Unit {0}) (rewrap r)
  rewrap-Ends (returns h) = returns tt
  rewrap-Ends (stops (inl (inl h))) = rw h (stops (inl refused))
  rewrap-Ends (stops (inl (inr (inl h)))) = rw h (stops (inl refused))
  rewrap-Ends (stops (inl (inr (inr h)))) = rw h (stops (inl refused))
  rewrap-Ends (stops {e} (inr h)) = rewrap_other e h

  check_message-Ends :
      (t : ℕ) (m : Bytes)
      → 4 ≤ length m
      → Ends (OrElse X) (λ _. Unit {0}) (check_message validate t m)
  unfolding check_message
  check_message-Ends t [] h = absurd (omega arith)
  check_message-Ends t (b ∷ m) h =
      Ends-require (b == t) tls_generation (inl refused) λ same. by_type (t == certificate)
    where
      by_type :
          (is_chain : Bool)
          → Ends (OrElse X) (λ _. Unit {0}) (if is_chain then rewrap (validate (b ∷ m)) else ok tt)
      by_type true = rewrap-Ends (validates (b ∷ m))
      by_type false = returns tt

  abbrev Keeps : Capture → Type 0
  Keeps c = AreChecked expected_messages c.captured

  abbrev Drains : List ℕ → Type 0
  Drains ts =
      (captured : List Bytes) (buffer : Bytes)
      → AreChecked expected_messages captured
      → drop (length captured) expected_messages ≡ ts
      → Ends (OrElse X) Keeps (drain validate ts captured buffer)

  drain-Ends : (ts : List ℕ) → Drains ts
  unfolding drain
  drain-Ends [] captured buffer h e = returns h
  drain-Ends (t ∷ ts) captured buffer h e =
      Ends-bind (or_else X (pop_handshake-Ends buffer))
        λ (popped, left) size. by_message (drain-Ends ts) popped left size
    where
      by_message :
          Drains ts
          → (popped : Option Bytes) (left : Bytes) → IsPopped (popped, left)
          → Ends (OrElse X) Keeps (elim popped [
            | none ↦ ok (record { captured = captured; buffer = left })
            | some message ↦
                check_message validate t message
                >> drain validate ts (captured ++ (message ∷ [])) left
          ])
      by_message more none left size = returns h
      by_message more (some message) left size =
          Ends-bind (Ends-equation (check_message-Ends t message size)) λ u (checked, _).
            let (all, rest) =
              AreChecked-append expected_messages captured t ts message h e checked in
            more (captured ++ (message ∷ [])) left all rest

  absorb-Ends :
      (fragment : Bytes) (c : Capture)
      → Keeps c
      → Ends (OrElse X) Keeps (absorb validate fragment c)
  unfolding absorb
  absorb-Ends fragment c h =
      Ends-require (not (ltb max_captured_handshake (length (c.buffer ++ fragment)))) tls_generation
        (inl refused)
        λ fits.
          drain-Ends (drop (length c.captured) expected_messages) c.captured (c.buffer ++ fragment)
            h refl

  -- All three messages, each checked for its type.
  abbrev pub IsCaptured : List Bytes → Type 0
  IsCaptured captured = AreChecked expected_messages captured × (3 ≤ length captured)

  pub capture_loop-Ends :
      (decrypt : ℕ → Bytes → Bytes → Result (ℕ × Bytes)) (failure : Exception)
      → ((n : ℕ) (header fragment : Bytes)
          → Ends IsCaptureError (λ _. Unit {0}) (decrypt n header fragment))
      → IsCaptureError failure
      → (rs : List TlsRecord) (n : ℕ) (c : Capture) → AreChecked expected_messages c.captured
      → Ends
          (OrElse X)
          (λ (d : Capture). IsCaptured d.captured)
          (capture_loop validate decrypt failure rs n c)
  unfolding capture_loop
  capture_loop-Ends decrypt failure opens fails [] n c h =
      elim (Bool-cases (ltb (length c.captured) 3)) [
        | inl more ↦ rw more (stops (inl fails))
        | inr all ↦ rw all (returns (h, ground arith))
      ]
  capture_loop-Ends decrypt failure opens fails (r ∷ rs) n c h =
      elim (Bool-cases (ltb (length c.captured) 3)) [
        | inr all ↦ rw all (returns (h, ground arith))
        | inl more ↦ rw more (
            by_kind (r.content_type == content_change_cipher_spec && bytes_eq r.fragment (1 ∷ []))
              (r.content_type != content_application_data)
              (capture_loop-Ends decrypt failure opens fails rs n c h)
              (Ends-bind (or_else X (opens n r.header r.fragment)) λ (inner_type, inner) _.
                Ends-require (inner_type == content_handshake) tls_generation (inl refused) λ same.
                  Ends-bind (absorb-Ends inner c h) λ after kept.
                    capture_loop-Ends decrypt failure opens fails rs (n + 1) after kept))
      ]
    where
      by_kind :
          {first second : Result Capture} (ignored other : Bool)
          → Ends (OrElse X) (λ (d : Capture). IsCaptured d.captured) first
          → Ends (OrElse X) (λ (d : Capture). IsCaptured d.captured) second
          → Ends
              (OrElse X)
              (λ (d : Capture). IsCaptured d.captured)
              (if ignored then first else if other then raises tls_generation else second)
      by_kind true other h k = h
      by_kind false true h k = stops (inl refused)
      by_kind false false h k = k
