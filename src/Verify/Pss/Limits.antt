-- ===== src/Verify/Pss/Limits.antt =====
-- The parameters of an RSA-PSS key that src/connectcoin_p2c_tools/verify.py lets sign.
use mathlib.Core.Path.{ap₂}
use connectcoin_p2c_tools.Common.{
  ℕ, ◌<◌, ◌≡◌, ◌⊎◌, inl, inr, refl, subst, Bool, true, false, ◌&&◌, List, [], ◌∷◌, ◌==◌, All, arith,
  Bytes, AreBytes, Bool-cases, &&-eq_true, ==→eq, elem,
}
use connectcoin_p2c_tools.Common.Outcome.{
  value_error, Ensures, holds, Ensures-bind, Ensures-require, Ensures-weaken,
}
use connectcoin_p2c_tools.Verify.Der.{Element, is_element}
use connectcoin_p2c_tools.Verify.Der.Canonical.{IsEncoding, HoldsBytes, der_elements-Ensures}
use connectcoin_p2c_tools.Verify.Der.Values.{
  IsSingle, IsSha256, IsInteger, is_element→eq, der_single-Ensures, sha256_algorithm-Ensures,
  der_nonnegative_integer-Ensures,
}
use connectcoin_p2c_tools.Verify.Pss.{
  Restrictions, mgf1_oid_der, names_mgf1, pss_parameter, in_order, pss_loop,
}

-- The value of the parameter for the hash: SHA-256.
abbrev pub IsHash : Bytes → Type 0
IsHash value = (algorithm : Bytes) × IsSingle 0x30 value algorithm × IsSha256 algorithm

-- The value of the parameter for the mask generation: MGF1 with SHA-256.
abbrev pub IsMgf1 : Bytes → Type 0
IsMgf1 value =
    (algorithm hash : Bytes) × IsSingle 0x30 value algorithm
    × IsEncoding algorithm ((0x06, mgf1_oid_der) ∷ (0x30, hash) ∷ [])
    × IsSha256 hash

abbrev pub Effect : ℕ → Bytes → Restrictions → Restrictions → Type 0
Effect tag value p after =
    ((tag ≡ 0xa0)
      × (named : Bool) × (named ≡ true → IsHash value)
      × (after ≡ record p { hash_is_sha256 = named }))
    ⊎ ((tag ≡ 0xa1)
        × (named : Bool) × (named ≡ true → IsMgf1 value)
        × (after ≡ record p { mgf1_is_sha256 = named }))
    ⊎ ((tag ≡ 0xa2)
        × (salt : ℕ) × IsInteger salt value
        × (after ≡ record p { minimum_salt = salt }))
    ⊎ ((tag ≡ 0xa3) × IsInteger 1 value × (after ≡ p))

abbrev pub Reads : List Element → ℕ → Restrictions → Restrictions → Type 0
Reads [] previous_tag p last = p ≡ last
Reads ((tag, value) ∷ parameters) previous_tag p last =
    (previous_tag < tag)
    × (after : Restrictions) × Effect tag value p after
    × Reads parameters tag after last

names_mgf1-Ensures :
    (bs : Bytes) (mgf : List Element)
    → IsEncoding bs mgf
    → All HoldsBytes mgf
    → Ensures value_error
        (λ named.
          named ≡ true
          → (hash : Bytes) × IsEncoding bs ((0x06, mgf1_oid_der) ∷ (0x30, hash) ∷ [])
            × IsSha256 hash)
        (names_mgf1 mgf)
unfolding names_mgf1
names_mgf1-Ensures bs [] h k = holds cc
names_mgf1-Ensures bs (a ∷ []) h k = holds cc
names_mgf1-Ensures bs (a ∷ (tag, value) ∷ []) h k =
    elim (Bool-cases (is_element a 0x06 mgf1_oid_der && tag == 0x30)) [
      | inr e ↦ rw e (holds cc)
      | inl e ↦
          let (oid, sequence) = &&-eq_true (is_element a 0x06 mgf1_oid_der) (tag == 0x30) e in
          rw e (
            Ensures-weaken
              (λ named is e'. (
                value,
                subst (λ (es : List Element). IsEncoding bs es)
                    (ap₂ (λ (x : Element) (t : ℕ). x ∷ (t, value) ∷ [])
                      (is_element→eq a 0x06 mgf1_oid_der oid) (==→eq tag 0x30 sequence))
                    h,
                is e',
              ))
              (sha256_algorithm-Ensures value k.1.0))
    ]
names_mgf1-Ensures bs (a ∷ b ∷ c ∷ more) h k = holds cc

last_tag :
    (tag : ℕ)
    → elem tag (0xa0 ∷ 0xa1 ∷ 0xa2 ∷ 0xa3 ∷ []) ≡ true
    → (tag == 0xa0) ≡ false
    → (tag == 0xa1) ≡ false
    → (tag == 0xa2) ≡ false
    → tag ≡ 0xa3
last_tag tag h a b c = ground arith

pss_parameter-Ensures :
    (tag : ℕ) (value : Bytes) (p : Restrictions)
    → AreBytes value
    → elem tag (0xa0 ∷ 0xa1 ∷ 0xa2 ∷ 0xa3 ∷ []) ≡ true
    → Ensures value_error (Effect tag value p) (pss_parameter tag value p)
unfolding pss_parameter
pss_parameter-Ensures tag value p k h = elim (Bool-cases (tag == 0xa0)) [
  | inl a ↦ rw a (
      Ensures-bind (der_single-Ensures value 0x30 k) λ algorithm (single, are).
        Ensures-bind (sha256_algorithm-Ensures algorithm are)
          λ named is. holds (inl (==→eq tag 0xa0 a, named, (λ e. (algorithm, single, is e)), refl)))
  | inr a ↦ rw a (elim (Bool-cases (tag == 0xa1)) [
    | inl b ↦ rw b (
        Ensures-bind (der_single-Ensures value 0x30 k) λ algorithm (single, are).
          Ensures-bind (der_elements-Ensures algorithm are) λ mgf (layout, hold).
            Ensures-bind (names_mgf1-Ensures algorithm mgf layout hold) λ named is. holds (
              inr (
                inl (
                  ==→eq tag 0xa1 b,
                  named,
                  (λ e. let (hash, l, s) = is e in (algorithm, hash, single, l, s)),
                  refl,
                ))))
    | inr b ↦ rw b (elim (Bool-cases (tag == 0xa2)) [
      | inl c ↦ rw c (
          Ensures-bind (der_nonnegative_integer-Ensures value k)
            λ salt is. holds (inr (inr (inl (==→eq tag 0xa2 c, salt, is, refl)))))
      | inr c ↦ rw c (
          Ensures-bind (der_nonnegative_integer-Ensures value k) λ trailer is.
            Ensures-require (trailer == 1) λ one. holds (
              inr (
                inr (
                  inr (
                    last_tag tag h a b c,
                    subst (λ (n : ℕ). IsInteger n value) (==→eq trailer 1 one) is,
                    refl,
                  )))))
    ])
  ])
]

order_tests :
    (previous_tag tag : ℕ)
    → in_order previous_tag tag ≡ true
    → (elem tag (0xa0 ∷ 0xa1 ∷ 0xa2 ∷ 0xa3 ∷ []) ≡ true) × (previous_tag < tag)
order_tests previous_tag tag h = ground arith

pub pss_loop-Ensures :
    (parameters : List Element) (previous_tag : ℕ) (p : Restrictions)
    → All HoldsBytes parameters
    → Ensures value_error (Reads parameters previous_tag p) (pss_loop parameters previous_tag p)
unfolding pss_loop
pss_loop-Ensures [] previous_tag p k = holds refl
pss_loop-Ensures ((tag, value) ∷ parameters) previous_tag p k =
    Ensures-require (in_order previous_tag tag) λ order.
      let (known, after_previous) = order_tests previous_tag tag order in
      Ensures-bind (pss_parameter-Ensures tag value p k.0 known) λ after effect.
        Ensures-weaken (λ last rest. (after_previous, after, effect, rest))
          (pss_loop-Ensures parameters tag after k.1)
