-- ===== src/Verify/Pss/Certificate.antt =====
-- The RSA-PSS leaf certificates whose key src/connectcoin_p2c_tools/verify.py lets sign.
use mathlib.Core.Path.{ap₂}
use connectcoin_p2c_tools.Common.{
  ℕ, ◌≡◌, ◌↔◌, ◌⊎◌, inl, inr, refl, sym, ap, ◌∙◌, subst, ◌&&◌, List, [], ◌∷◌, Option, none, some,
  ◌==◌, if◌then◌else◌, All, Bytes, AreBytes, Bool-cases, &&-eq_true, ==→eq, get_elem?,
}
use connectcoin_p2c_tools.Common.Outcome.{
  Result, ok, value_error, proof_verification, Ensures, holds, rejects, Ensures-ok, Ensures-bind,
  Ensures-require, Ensures-test, Ensures-weaken,
}
use connectcoin_p2c_tools.Verify.Der.{Element, is_element}
use connectcoin_p2c_tools.Verify.Der.Canonical.{
  IsEncoding, HoldsBytes, der_elements-encode, der_elements-Ensures,
}
use connectcoin_p2c_tools.Verify.Der.Values.{
  IsSingle, is_element→eq, der_single-Ensures, der_single-encode,
}
use connectcoin_p2c_tools.Verify.Pss.{
  rsassa_pss_oid_der, check_pss_algorithm, spki_index, spki_value, algorithm_value,
  read_restrictions, as_verification, check_pss_key_restrictions,
}
use connectcoin_p2c_tools.Verify.Pss.Parameters.{ArePermitted}
use connectcoin_p2c_tools.Verify.Pss.Permits.{
  check_pss_parameters-Ensures, check_pss_parameters-ArePermitted,
}

-- id-RSASSA-PSS, without parameters or with those that let it sign.
abbrev IsPssAlgorithm : List Element → Type 0
IsPssAlgorithm elements =
    (elements ≡ (0x06, rsassa_pss_oid_der) ∷ [])
    ⊎ ((encoded : Bytes) × (parameters : List Element) × (elements
          ≡ (0x06, rsassa_pss_oid_der) ∷ (0x30, encoded) ∷ [])
        × IsEncoding encoded parameters
        × ArePermitted parameters)

-- The fields from the serial number on: the version is optional and has a tag of its own.
abbrev from_serial : List Element → List Element
from_serial [] = []
from_serial ((tag, value) ∷ fields) = if tag == 0xa0 then fields else (tag, value) ∷ fields

-- A TBSCertificate whose SubjectPublicKeyInfo, behind serial number, signature, issuer, validity
-- and subject, has an RSA-PSS algorithm that lets the key sign.
abbrev pub IsPssCertificate : Bytes → Type 0
IsPssCertificate certificate =
    (body : Bytes) × (fields : List Element) × (spki : Bytes) × (algorithm : Bytes) × (key : Bytes)
    × (elements : List Element) × IsSingle 0x30 certificate body
    × IsEncoding body fields
    × (get_elem? (from_serial fields) 5 ≡ some (0x30, spki))
    × IsEncoding spki ((0x30, algorithm) ∷ (0x03, key) ∷ [])
    × IsEncoding algorithm elements
    × IsPssAlgorithm elements

spki_place :
    (fields : List Element)
    → get_elem? fields (spki_index fields) ≡ get_elem? (from_serial fields) 5
spki_place [] = refl
spki_place ((tag, value) ∷ fields) = elim (Bool-cases (tag == 0xa0)) [
  | inl e ↦ rw e refl
  | inr e ↦ rw e refl
]

check_pss_algorithm-Ensures :
    (elements : List Element)
    → All HoldsBytes elements
    → Ensures value_error (λ _. IsPssAlgorithm elements) (check_pss_algorithm elements)
unfolding check_pss_algorithm
check_pss_algorithm-Ensures [] k = rejects
check_pss_algorithm-Ensures (oid ∷ []) k =
    Ensures-test (is_element oid 0x06 rsassa_pss_oid_der)
      λ e. inl (ap (λ (x : Element). x ∷ []) (is_element→eq oid 0x06 rsassa_pss_oid_der e))
check_pss_algorithm-Ensures (oid ∷ (tag, value) ∷ []) k =
    Ensures-require (is_element oid 0x06 rsassa_pss_oid_der) λ e. Ensures-require (tag == 0x30) λ f.
      Ensures-weaken
        (λ _ (parameters, layout, permitted). inr (
          value,
          parameters,
          ap₂ (λ (x : Element) (t : ℕ). x ∷ (t, value) ∷ [])
              (is_element→eq oid 0x06 rsassa_pss_oid_der e) (==→eq tag 0x30 f),
          layout,
          permitted,
        ))
        (check_pss_parameters-Ensures value k.1.0)
check_pss_algorithm-Ensures (oid ∷ a ∷ b ∷ more) k = rejects

check_pss_algorithm-IsPssAlgorithm :
    (elements : List Element) → IsPssAlgorithm elements → check_pss_algorithm elements ≡ ok tt
unfolding check_pss_algorithm
check_pss_algorithm-IsPssAlgorithm elements (inl e) = rw e refl
check_pss_algorithm-IsPssAlgorithm elements (inr (encoded, parameters, e, layout, permitted)) =
    rw e (check_pss_parameters-ArePermitted encoded parameters layout permitted)

spki_value-Ensures :
    (o : Option Element)
    → ((e : Element) → o ≡ some e → HoldsBytes e)
    → Ensures value_error (λ spki. (o ≡ some (0x30, spki)) × AreBytes spki) (spki_value o)
spki_value-Ensures none k = rejects
spki_value-Ensures (some (tag, value)) k = elim (Bool-cases (tag == 0x30)) [
  | inr e ↦ rw e rejects
  | inl e ↦ rw e (holds (ap (λ (t : ℕ). some (t, value)) (==→eq tag 0x30 e), k (tag, value) refl))
]

get_elem?-HoldsBytes :
    (elements : List Element) (i : ℕ) (e : Element)
    → All HoldsBytes elements
    → get_elem? elements i ≡ some e
    → HoldsBytes e
get_elem?-HoldsBytes [] i e k h = cc
get_elem?-HoldsBytes (a ∷ elements) ℕ.zero e k h =
    subst (λ (o : Option Element). elim o [ none ↦ Unit {0} | some x ↦ HoldsBytes x ]) h k.0
get_elem?-HoldsBytes (a ∷ elements) (ℕ.suc i) e k h = get_elem?-HoldsBytes elements i e k.1 h

algorithm_value-Ensures :
    (spki : Bytes) (elements : List Element)
    → IsEncoding spki elements
    → All HoldsBytes elements
    → Ensures value_error
        (λ algorithm.
          ((key : Bytes) × IsEncoding spki ((0x30, algorithm) ∷ (0x03, key) ∷ []))
          × AreBytes algorithm)
        (algorithm_value elements)
algorithm_value-Ensures spki [] h k = rejects
algorithm_value-Ensures spki (a ∷ []) h k = rejects
algorithm_value-Ensures spki ((t, algorithm) ∷ (u, key) ∷ []) h k =
    elim (Bool-cases (t == 0x30 && u == 0x03)) [
      | inr e ↦ rw e rejects
      | inl e ↦
          let (f, g) = &&-eq_true (t == 0x30) (u == 0x03) e in
          rw e (
            holds (
              (
                key,
                subst (λ (es : List Element). IsEncoding spki es)
                    (ap₂ (λ (x y : ℕ). (x, algorithm) ∷ (y, key) ∷ []) (==→eq t 0x30 f)
                      (==→eq u 0x03 g))
                    h,
              ),
              k.0,
            ))
    ]
algorithm_value-Ensures spki (a ∷ b ∷ c ∷ more) h k = rejects

read_restrictions-Ensures :
    (certificate : Bytes)
    → AreBytes certificate
    → Ensures value_error (λ _. IsPssCertificate certificate) (read_restrictions certificate)
unfolding read_restrictions
read_restrictions-Ensures certificate k =
    Ensures-bind (der_single-Ensures certificate 0x30 k) λ body (single, body_are).
      Ensures-bind (der_elements-Ensures body body_are) λ fields (fields_layout, fields_are).
        Ensures-bind
          (spki_value-Ensures (get_elem? fields (spki_index fields))
            (λ e h. get_elem?-HoldsBytes fields (spki_index fields) e fields_are h))
          λ spki (place, spki_are).
            Ensures-bind (der_elements-Ensures spki spki_are) λ info (info_layout, info_are).
              Ensures-bind (algorithm_value-Ensures spki info info_layout info_are)
                λ algorithm ((key, both), algorithm_are).
                  Ensures-bind (der_elements-Ensures algorithm algorithm_are)
                    λ elements (layout, are).
                      Ensures-weaken
                        (λ _ is. (
                          body,
                          fields,
                          spki,
                          algorithm,
                          key,
                          elements,
                          single,
                          fields_layout,
                          sym (spki_place fields) ∙ place,
                          both,
                          layout,
                          is,
                        ))
                        (check_pss_algorithm-Ensures elements are)

read_restrictions-IsPssCertificate :
    (certificate : Bytes) → IsPssCertificate certificate → read_restrictions certificate ≡ ok tt
unfolding read_restrictions
read_restrictions-IsPssCertificate certificate
      (body, fields, spki, algorithm, key, elements, single, layout, place, both, inner, is) =
    rw
      (
        der_single-encode certificate body 0x30 single,
        der_elements-encode body fields layout,
        spki_place fields,
        place,
        der_elements-encode spki _ both,
        der_elements-encode algorithm elements inner,
      )
      (check_pss_algorithm-IsPssAlgorithm elements is)

-- An error of the reader becomes the exception of the caller.
as_verification-Ensures {ℓ κ} :
    {A : Type ℓ} {P : A → Type κ} {r : Result A}
    → Ensures value_error P r
    → Ensures proof_verification P (as_verification r)
as_verification-Ensures (holds h) = holds h
as_verification-Ensures rejects = rejects

pub check_pss_key_restrictions-Ensures :
    (certificate : Bytes)
    → AreBytes certificate
    → Ensures proof_verification
        (λ _. IsPssCertificate certificate)
        (check_pss_key_restrictions certificate)
unfolding check_pss_key_restrictions
check_pss_key_restrictions-Ensures certificate k =
    as_verification-Ensures (read_restrictions-Ensures certificate k)

-- The restrictions of an RSA-PSS key pass for the bytes of a signed part exactly if that is a DER
-- sequence whose sixth field behind the optional version is a SubjectPublicKeyInfo with
-- id-RSASSA-PSS and no parameters, or with parameters that name SHA-256, then MGF1 with SHA-256,
-- then at most a minimum salt of up to 32 and a trailer field of 1.
pub check_pss_key_restrictions_iff :
    (certificate : Bytes)
    → AreBytes certificate
    → (check_pss_key_restrictions certificate ≡ ok tt) ↔ IsPssCertificate certificate
unfolding check_pss_key_restrictions
check_pss_key_restrictions_iff certificate k = (
  λ h. Ensures-ok (check_pss_key_restrictions-Ensures certificate k) h,
  λ is. rw (read_restrictions-IsPssCertificate certificate is) refl,
)
