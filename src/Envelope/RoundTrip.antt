-- ===== src/Envelope/RoundTrip.antt =====
-- from_dict and to_dict of src/connectcoin_p2c_tools/envelope.py.
use connectcoin_p2c_tools.Common.{◌≡◌, ◌↔◌, ◌⊎◌, refl, true, Bytes, AreBytes}
use connectcoin_p2c_tools.Common.Outcome.{
  ok, raises, proof_format, Ensures, rejects, Ensures-ok, returns_or_rejects, Ensures-weaken,
  require_ok,
}
use connectcoin_p2c_tools.Common.Values.{Value, dict, Fields}
use connectcoin_p2c_tools.Envelope.{
  ConnectionProof, begins_with_2, check_serialized_proof, from_dict, fields_of, to_dict,
}
use connectcoin_p2c_tools.Envelope.Valid.{IsValid}
use connectcoin_p2c_tools.Envelope.Keys.{IsEnvelope}
use connectcoin_p2c_tools.Envelope.Dicts.{from_fields-Ensures, from_fields-ok, IsEnvelope-fields_of}

module _ (sha256 : Bytes → Bytes) where
  -- from_dict returns an envelope from a dict exactly if the envelope is valid, its proof is bytes
  -- that begin with 2, and the dict has the ten keys, no other, and under them the values of the
  -- envelope.
  pub from_dict_iff :
      (value : Fields) (p : ConnectionProof)
      → (from_dict sha256 (dict value) ≡ ok p) ↔ IsEnvelope value p
  unfolding from_dict
  from_dict_iff value p =
      (λ h. Ensures-ok (from_fields-Ensures sha256 value) h, from_fields-ok sha256 value p)

  from_dict-Ensures :
      (v : Value)
      → Ensures proof_format
          (λ (p : ConnectionProof). (value : Fields) × (v ≡ dict value) × IsEnvelope value p)
          (from_dict sha256 v)
  unfolding from_dict
  from_dict-Ensures (dict value) =
      Ensures-weaken (λ p h. (value, refl, h)) (from_fields-Ensures sha256 value)
  from_dict-Ensures _ = rejects

  -- On every value from_dict returns an envelope or raises ProofFormatError; it raises no
  -- KeyError, and no ValueError of bytes.fromhex or claim_challenge.
  pub from_dict_total :
      (v : Value)
      → ((p : ConnectionProof) × (from_dict sha256 v ≡ ok p))
        ⊎ (from_dict sha256 v ≡ raises proof_format)
  from_dict_total v = returns_or_rejects (from_dict-Ensures v)

  -- A valid envelope whose proof is bytes that begin with 2 is written by to_dict as a dict from
  -- which from_dict returns that same envelope.
  pub to_dict-from_dict :
      (p : ConnectionProof)
      → IsValid p
      → AreBytes p.proof
      → begins_with_2 p.proof ≡ true
      → (v : Value) × (to_dict p ≡ ok v) × (from_dict sha256 v ≡ ok p)
  unfolding to_dict check_serialized_proof
  to_dict-from_dict p valid h k = (
    dict (fields_of p),
    require_ok _ k refl,
    (from_dict_iff (fields_of p) p).1 (IsEnvelope-fields_of p valid k h),
  )
