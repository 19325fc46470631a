-- ===== src/Envelope/Keys.antt =====
-- The ten keys of an envelope (src/connectcoin_p2c_tools/envelope.py), and what stands under
-- them.
use connectcoin_p2c_tools.Common.{
  ℕ, ◌≡◌, inl, inr, refl, true, List, [], ◌∷◌, bytes_eq, AreBytes, Bytes, subst, All, Bool-cases,
  &&-eq_true,
}
use connectcoin_p2c_tools.Common.Outcome.{ok}
use connectcoin_p2c_tools.Common.Values.{Value, pos, int, text, bytes, Fields, no_fields, field}
use connectcoin_p2c_tools.Hashes.{codes, to_hex}
use connectcoin_p2c_tools.Envelope.{
  format, expected_keys, has_field, get_field, has_fields, fields_within, ConnectionProof,
  begins_with_2, Arguments,
}
use connectcoin_p2c_tools.Envelope.Valid.{IsValid, arguments}

field_at :
    (key : List ℕ) (value : Fields)
    → has_field key value ≡ true
    → (v : Value) × (get_field value key ≡ ok v)
unfolding has_field get_field
field_at key no_fields h = cc
field_at key (field k v more) h = elim (Bool-cases (bytes_eq k key)) [
  | inl e ↦ (v, rw e refl)
  | inr e ↦ let (w, found) = field_at key more (rw e at h) in (w, rw (e, found) refl)
]

fields_at :
    (keys : List (List ℕ)) (value : Fields)
    → has_fields keys value ≡ true
    → All (λ (key : List ℕ). (v : Value) × (get_field value key ≡ ok v)) keys
unfolding has_fields
fields_at [] value h = tt
fields_at (key ∷ keys) value h =
    let (this, others) = &&-eq_true (has_field key value) (has_fields keys value) h in
    (field_at key value this, fields_at keys value others)

abbrev Found : Fields → List ℕ → Type 0
Found value key = (v : Value) × (get_field value key ≡ ok v)

pub ten_fields :
    (value : Fields)
    → has_fields expected_keys value ≡ true
    → Found value (codes "format")
      × Found value (codes "version")
      × Found value (codes "domain")
      × Found value (codes "txid")
      × Found value (codes "input_index")
      × Found value (codes "connection_work_target")
      × Found value (codes "root_certificates_version")
      × Found value (codes "signature_algorithms_mask")
      × Found value (codes "validation_time")
      × Found value (codes "proof")
      × Unit {0}
ten_fields value h =
    let (f, n₁) = fields_at expected_keys value h in
    let (v, n₂) = n₁ in
    let (d, n₃) = n₂ in
    let (t, n₄) = n₃ in
    let (i, n₅) = n₄ in
    let (g, n₆) = n₅ in
    let (r, n₇) = n₆ in
    let (m, n₈) = n₇ in let (y, n₉) = n₈ in let (p, n₀) = n₉ in (f, v, d, t, i, g, r, m, y, p, tt)

-- A dict with the ten keys, no other, and the values of a proof that may be serialized.
pub record IsEnvelope (value : Fields) (p : ConnectionProof) : Type 0 where
  pub valid : IsValid p
  pub serialized : begins_with_2 p.proof ≡ true
  pub are_bytes : AreBytes p.proof
  pub keys_present : has_fields expected_keys value ≡ true
  pub keys_known : fields_within expected_keys value ≡ true
  pub at_format : get_field value (codes "format") ≡ ok (text format)
  pub at_version : get_field value (codes "version") ≡ ok (int (pos 2))
  pub at_domain : get_field value (codes "domain") ≡ ok (text p.domain)
  pub at_txid : get_field value (codes "txid") ≡ ok (text p.txid)
  pub at_target :
      get_field value (codes "connection_work_target") ≡ ok (text p.connection_work_target)
  pub at_index : get_field value (codes "input_index") ≡ ok (int (pos p.input_index))
  pub at_roots :
      get_field value (codes "root_certificates_version")
      ≡ ok (int (pos p.root_certificates_version))
  pub at_mask :
      get_field value (codes "signature_algorithms_mask")
      ≡ ok (int (pos p.signature_algorithms_mask))
  pub at_time : get_field value (codes "validation_time") ≡ ok (int (pos p.validation_time))
  pub at_proof : get_field value (codes "proof") ≡ ok (text (to_hex p.proof))

-- A dict with the ten keys, no other, and the values that `ConnectionProof(...)` is called with.
pub record Holds (value : Fields) (a : Arguments) : Type 0 where
  pub keys_present : has_fields expected_keys value ≡ true
  pub keys_known : fields_within expected_keys value ≡ true
  pub at_format : get_field value (codes "format") ≡ ok (text format)
  pub at_version : get_field value (codes "version") ≡ ok (int (pos 2))
  pub at_domain : get_field value (codes "domain") ≡ ok a.domain
  pub at_txid : get_field value (codes "txid") ≡ ok a.txid
  pub at_target : get_field value (codes "connection_work_target") ≡ ok a.connection_work_target
  pub at_index : get_field value (codes "input_index") ≡ ok a.input_index
  pub at_roots :
      get_field value (codes "root_certificates_version") ≡ ok a.root_certificates_version
  pub at_mask : get_field value (codes "signature_algorithms_mask") ≡ ok a.signature_algorithms_mask
  pub at_time : get_field value (codes "validation_time") ≡ ok a.validation_time
  pub shown : Bytes
  pub are_bytes : AreBytes shown
  pub is_proof : a.proof ≡ bytes shown
  pub at_proof : get_field value (codes "proof") ≡ ok (text (to_hex shown))

pub Holds-IsEnvelope :
    (value : Fields) (p : ConnectionProof)
    → IsValid p
    → begins_with_2 p.proof ≡ true
    → Holds value (arguments p)
    → IsEnvelope value p
Holds-IsEnvelope value p valid serialized h =
    let same : h.shown ≡ p.proof = cc (h.is_proof) in
    record {
      valid = valid;
      serialized = serialized;
      are_bytes = subst AreBytes same h.are_bytes;
      keys_present = h.keys_present;
      keys_known = h.keys_known;
      at_format = h.at_format;
      at_version = h.at_version;
      at_domain = h.at_domain;
      at_txid = h.at_txid;
      at_target = h.at_target;
      at_index = h.at_index;
      at_roots = h.at_roots;
      at_mask = h.at_mask;
      at_time = h.at_time;
      at_proof = rw (← same) h.at_proof;
    }
