-- ===== src/Signatures/Policy.antt =====
-- The mask of src/connectcoin_p2c_tools/signatures.py as a policy.
use connectcoin_p2c_tools.Common.{
  ℕ, zero, suc, ◌≡◌, refl, ◌≤◌, ◌<◌, ◌/◌, ◌%◌, Bool, ◌||◌, ◌&&◌, ◌==◌, List, arith, length, All,
}
use connectcoin_p2c_tools.Common.Outcome.{ok}
use connectcoin_p2c_tools.Common.Values.{pos, int}
use connectcoin_p2c_tools.Signatures.{
  SignatureAlgorithm, signature_algorithms, validate_signature_algorithms_mask, select,
  accepted_signature_algorithms, signature_scheme_allowed,
}

-- The documented policy: bit 1 is ECDSA P-256, bit 2 RSA-PSS-RSAE, bit 4 RSA-PSS-PSS.
abbrev bit_of : ℕ → ℕ → Bool
bit_of mask place = mask / place % 2 == 1

abbrev pub permits : ℕ → ℕ → Bool
permits mask scheme =
    (bit_of mask 1 && scheme == 0x0403)
    || ((bit_of mask 2 && scheme == 0x0804) || (bit_of mask 4 && scheme == 0x0809))

-- The values from 1 to 7.
data MaskCase : ℕ → Type 0 where
  one : MaskCase 1
  two : MaskCase 2
  three : MaskCase 3
  four : MaskCase 4
  five : MaskCase 5
  six : MaskCase 6
  seven : MaskCase 7

mask_case : (mask : ℕ) → 1 ≤ mask → mask ≤ 7 → MaskCase mask
mask_case zero h k = absurd (omega arith)
mask_case (suc zero) h k = one
mask_case (suc (suc zero)) h k = two
mask_case (suc (suc (suc zero))) h k = three
mask_case (suc (suc (suc (suc zero)))) h k = four
mask_case (suc (suc (suc (suc (suc zero))))) h k = five
mask_case (suc (suc (suc (suc (suc (suc zero)))))) h k = six
mask_case (suc (suc (suc (suc (suc (suc (suc zero))))))) h k = seven
mask_case (suc (suc (suc (suc (suc (suc (suc (suc n)))))))) h k = absurd (omega arith)

allowed_case :
    (mask scheme : ℕ)
    → MaskCase mask
    → signature_scheme_allowed mask scheme ≡ ok (permits mask scheme)
unfolding signature_scheme_allowed accepted_signature_algorithms
allowed_case mask scheme one = ground arith
allowed_case mask scheme two = ground arith
allowed_case mask scheme three = ground arith
allowed_case mask scheme four = ground arith
allowed_case mask scheme five = ground arith
allowed_case mask scheme six = ground arith
allowed_case mask scheme seven = ground arith

-- On every mask of 1 to 7, a scheme is allowed exactly if it is one of the three of the program
-- and its bit is set in the mask.
pub signature_scheme_allowed-permits :
    (mask scheme : ℕ)
    → 1 ≤ mask
    → mask ≤ 7
    → signature_scheme_allowed mask scheme ≡ ok (permits mask scheme)
signature_scheme_allowed-permits mask scheme h k = allowed_case mask scheme (mask_case mask h k)

schemes_case :
    (mask : ℕ)
    → MaskCase mask
    → (accepted : List SignatureAlgorithm) × (accepted_signature_algorithms mask ≡ ok accepted)
      × (1 ≤ length accepted)
      × (length accepted ≤ 3)
      × All (λ (a : SignatureAlgorithm). a.scheme < 65536) accepted
unfolding accepted_signature_algorithms
schemes_case mask one = (select 1 signature_algorithms, refl, omega arith, omega arith, omega arith)
schemes_case mask two = (select 2 signature_algorithms, refl, omega arith, omega arith, omega arith)
schemes_case mask three =
    (select 3 signature_algorithms, refl, omega arith, omega arith, omega arith)
schemes_case mask four =
    (select 4 signature_algorithms, refl, omega arith, omega arith, omega arith)
schemes_case mask five =
    (select 5 signature_algorithms, refl, omega arith, omega arith, omega arith)
schemes_case mask six = (select 6 signature_algorithms, refl, omega arith, omega arith, omega arith)
schemes_case mask seven =
    (select 7 signature_algorithms, refl, omega arith, omega arith, omega arith)

-- Every mask of an output permits one to three schemes.
pub accepted_cases :
    (mask : ℕ)
    → 1 ≤ mask
    → mask ≤ 7
    → (accepted : List SignatureAlgorithm) × (accepted_signature_algorithms mask ≡ ok accepted)
      × (1 ≤ length accepted)
      × (length accepted ≤ 3)
      × All (λ (a : SignatureAlgorithm). a.scheme < 65536) accepted
accepted_cases mask h k = schemes_case mask (mask_case mask h k)

pub validate-ok :
    (mask : ℕ) → 1 ≤ mask → mask ≤ 7 → validate_signature_algorithms_mask (int (pos mask)) ≡ ok mask
unfolding validate_signature_algorithms_mask
validate-ok mask h k = ground arith
