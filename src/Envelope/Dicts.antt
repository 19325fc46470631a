-- ===== src/Envelope/Dicts.antt =====
-- The ten fields that from_dict of src/connectcoin_p2c_tools/envelope.py reads, and those that
-- to_dict writes.
use connectcoin_p2c_tools.Common.{
  ℕ, ◌*◌, ◌≤◌, ◌≡◌, inl, inr, refl, ap, subst, true, not, List, [], ◌∷◌, none, some, arith, ltb,
  length, bytes_eq→eq, Bytes, AreBytes, Bool-cases, le→not_ltb,
}
use connectcoin_p2c_tools.Common.Outcome.{
  Result, ok, proof_format, ◌>>=◌, ◌>>◌, Ensures, holds, rejects, Ensures-bind, Ensures-require,
  Ensures-weaken, bind_ok, require_ok,
}
use connectcoin_p2c_tools.Common.Values.{Value, pos, int, text, Fields}
use connectcoin_p2c_tools.Hashes.{to_hex, claim_challenge}
use connectcoin_p2c_tools.Hashes.Hex.{from_hex-to_hex}
use connectcoin_p2c_tools.Signatures.Policy.{validate-ok}
use connectcoin_p2c_tools.Envelope.{
  format, expected_keys, has_field, get_field, has_fields, fields_within, require_exact_keys,
  is_version, is_format, ConnectionProof, construct, begins_with_2, check_serialized_proof,
  arguments_of, from_fields, fields_of,
}
use connectcoin_p2c_tools.Envelope.Valid.{
  IsValid, arguments, version_of, construct-Ensures, construct-ok,
}
use connectcoin_p2c_tools.Envelope.Checks.{
  IsHex, require_hex-ok, require_hex-Ensures, require_uint-Ensures, require_uint-ok,
  require_positive-Ensures, require_positive-ok, require_domain-Ensures, require_domain-ok,
  validate_mask-Ensures, claim_challenge-ok,
}
use connectcoin_p2c_tools.Envelope.Keys.{ten_fields, IsEnvelope, Holds, Holds-IsEnvelope}

format_of : (v : Value) → is_format v ≡ true → v ≡ text format
format_of (text s) h = ap (λ (t : List ℕ). text t) (bytes_eq→eq s format h)
format_of _ h = cc

require_exact_keys-Ensures :
    (value : Fields)
    → Ensures proof_format
        (λ (_ : Unit {0}).
          (has_fields expected_keys value ≡ true) × (fields_within expected_keys value ≡ true))
        (require_exact_keys value)
unfolding require_exact_keys
require_exact_keys-Ensures value = elim (Bool-cases (has_fields expected_keys value)) [
  | inr e ↦ rw e rejects
  | inl e ↦ elim (Bool-cases (fields_within expected_keys value)) [
    | inr f ↦ rw (e, f) rejects
    | inl f ↦ rw (e, f) (holds (refl, refl))
  ]
]

pub IsEnvelope-fields_of :
    (p : ConnectionProof)
    → IsValid p
    → begins_with_2 p.proof ≡ true
    → AreBytes p.proof
    → IsEnvelope (fields_of p) p
unfolding has_fields has_field fields_within get_field
IsEnvelope-fields_of p valid k h = record {
  valid = valid;
  serialized = k;
  are_bytes = h;
  keys_present = refl;
  keys_known = refl;
  at_format = refl;
  at_version = ap (λ (n : ℕ). ok (int (pos n))) valid.is_version_2;
  at_domain = refl;
  at_txid = refl;
  at_target = refl;
  at_index = refl;
  at_roots = refl;
  at_mask = refl;
  at_time = refl;
  at_proof = refl;
}

module _ (sha256 : Bytes → Bytes) where
  -- From the decoded proof on.
  finish : List ℕ → List ℕ → ℕ → List ℕ → ℕ → ℕ → ℕ → Bytes → Result ConnectionProof
  finish domain txid index target roots mask time proof =
      construct (arguments_of domain txid index target roots mask time proof) >>= λ result.
      claim_challenge sha256 result.txid (int (pos result.input_index)) >>= λ _.
      check_serialized_proof result >> ok result

  finish-Ensures :
      (domain txid : List ℕ) (index : ℕ) (target : List ℕ) (roots mask time : ℕ) (proof : Bytes)
      → Ensures proof_format
          (λ (p : ConnectionProof).
            IsValid p
            × (begins_with_2 p.proof ≡ true)
            × (arguments_of domain txid index target roots mask time proof ≡ arguments p))
          (finish domain txid index target roots mask time proof)
  unfolding finish check_serialized_proof
  finish-Ensures domain txid index target roots mask time proof =
      Ensures-bind (construct-Ensures (arguments_of domain txid index target roots mask time proof))
        λ p (valid, e).
          rw (claim_challenge-ok sha256 p.txid p.input_index valid.txid_hex valid.index_fits) (
            Ensures-require (begins_with_2 p.proof)
              λ (s : begins_with_2 p.proof ≡ true). holds (valid, s, e))

  pub from_fields-Ensures :
      (value : Fields)
      → Ensures proof_format
          (λ (p : ConnectionProof). IsEnvelope value p)
          (from_fields sha256 value)
  unfolding from_fields finish
  from_fields-Ensures value = Ensures-bind (require_exact_keys-Ensures value) λ u (present, known).
      let (f, v, d, t, i, g, r, m, y, p, end) = ten_fields value present in
      rw (f.1, v.1, d.1, t.1, i.1, g.1, r.1, m.1, y.1, p.1)
        (Ensures-require (is_format f.0) λ (hf : is_format f.0 ≡ true).
          Ensures-require (is_version v.0) λ (hv : is_version v.0 ≡ true).
            Ensures-bind (require_domain-Ensures d.0) λ domain (e₁, canonical).
              Ensures-bind (require_hex-Ensures t.0 (some 32)) λ txid (e₂, txid_hex).
                Ensures-bind (require_hex-Ensures g.0 (some 32)) λ target (e₃, target_hex).
                  Ensures-bind (require_uint-Ensures i.0 0xffffffff) λ index (e₄, index_fits).
                    Ensures-bind (require_positive-Ensures r.0 0xffffffff) λ roots (e₅, r₁, r₂).
                      Ensures-bind (validate_mask-Ensures m.0) λ mask (e₆, m₁, m₂).
                        Ensures-bind (require_positive-Ensures y.0 0x7fffffffffffffff)
                          λ time (e₇, t₁, t₂).
                            Ensures-bind (require_hex-Ensures p.0 none) λ proof_hex (e₈, hex).
                              rw (hex.hex.reads) (
                                Ensures-require (not (ltb (64 * 1024) (length hex.shown)))
                                  λ (short : not (ltb (64 * 1024) (length hex.shown)) ≡ true).
                                    let h : Holds value (
                                        arguments_of domain txid index target roots mask time
                                          hex.shown) =
                                      record {
                                        keys_present = present;
                                        keys_known = known;
                                        at_format = cc (f.1, format_of f.0 hf);
                                        at_version = cc (v.1, version_of v.0 hv);
                                        at_domain = cc (d.1, e₁);
                                        at_txid = cc (t.1, e₂);
                                        at_target = cc (g.1, e₃);
                                        at_index = cc (i.1, e₄);
                                        at_roots = cc (r.1, e₅);
                                        at_mask = cc (m.1, e₆);
                                        at_time = cc (y.1, e₇);
                                        shown = hex.shown;
                                        are_bytes = hex.hex.are_bytes;
                                        is_proof = refl;
                                        at_proof = cc (p.1, e₈, hex.hex.printed);
                                      } in
                                    Ensures-weaken
                                      (λ q (valid, serialized, e).
                                        Holds-IsEnvelope value q valid serialized
                                          (subst (Holds value) e h))
                                      (finish-Ensures domain txid index target roots mask time
                                        hex.shown)))

  proof-IsHex :
      (p : ConnectionProof)
      → AreBytes p.proof
      → begins_with_2 p.proof ≡ true
      → IsHex none (to_hex p.proof)
  proof-IsHex p h k = record {
    shown = p.proof;
    hex = record { printed = refl; are_bytes = h; reads = from_hex-to_hex p.proof h };
    some_bytes = some_of p.proof k;
    fits = refl;
  }
    where
      some_of : (b : Bytes) → begins_with_2 b ≡ true → 1 ≤ length b
      some_of [] h = absurd (ground arith)
      some_of (x ∷ b) h = omega arith

  finish-ok :
      (p : ConnectionProof)
      → IsValid p
      → begins_with_2 p.proof ≡ true
      → finish p.domain p.txid p.input_index p.connection_work_target p.root_certificates_version
          p.signature_algorithms_mask p.validation_time p.proof
        ≡ ok p
  unfolding finish check_serialized_proof
  finish-ok p h k = bind_ok _ (construct-ok p h) (
      bind_ok _ (claim_challenge-ok sha256 p.txid p.input_index h.txid_hex h.index_fits)
        (require_ok _ k refl))

  pub from_fields-ok :
      (value : Fields) (p : ConnectionProof) → IsEnvelope value p → from_fields sha256 value ≡ ok p
  unfolding from_fields require_exact_keys finish
  from_fields-ok value p h =
      rw
        (
          h.keys_present, h.keys_known, h.at_format, h.at_version, h.at_domain, h.at_txid,
          h.at_target, h.at_index, h.at_roots, h.at_mask, h.at_time, h.at_proof,
        )
        (bind_ok _ (require_domain-ok p.domain h.valid.canonical) (
          bind_ok _ (require_hex-ok p.txid (some 32) h.valid.txid_hex) (
            bind_ok _ (require_hex-ok p.connection_work_target (some 32) h.valid.target_hex) (
              bind_ok _ (require_uint-ok p.input_index 0xffffffff h.valid.index_fits) (
                bind_ok _
                  (require_positive-ok p.root_certificates_version 0xffffffff h.valid.roots_fit.0
                    h.valid.roots_fit.1)
                  (bind_ok _
                    (validate-ok p.signature_algorithms_mask h.valid.mask_fits.0
                      h.valid.mask_fits.1)
                    (bind_ok _
                      (require_positive-ok p.validation_time 0x7fffffffffffffff h.valid.time_fits.0
                        h.valid.time_fits.1)
                      (bind_ok _
                        (require_hex-ok (to_hex p.proof) none
                          (proof-IsHex p h.are_bytes h.serialized))
                        (bind_ok _ (from_hex-to_hex p.proof h.are_bytes) (
                          require_ok _ (le→not_ltb _ _ h.valid.size_fits)
                            (finish-ok p h.valid h.serialized)))))))))))
