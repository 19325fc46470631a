-- ===== src/Verify/Chain/Rooted.antt =====
-- The trusted roots, the validity times and the path in src/connectcoin_p2c_tools/verify.py.
use connectcoin_p2c_tools.Common.{
  ℕ, ◌-◌, ◌≤◌, ◌≡◌, ◌≢◌, inl, inr, refl, subst, Bool, true, false, ◌&&◌, ◌||◌, not, List, [], ◌∷◌,
  Option, none, some, is_empty, ltb, ◌==◌, bytes_eq, bytes_eq→eq, bytes_eq_refl, Bytes, All, arith,
  Bool-cases, ==→eq,
}
use connectcoin_p2c_tools.Common.Outcome.{
  ok, proof_verification, Ends, returns, Ends-bind, Ends-require, Ensures-Ends, Ensures, holds,
  rejects, Ensures-bind, Ensures-require, Ensures-test, Ensures-weaken,
}
use connectcoin_p2c_tools.Common.Values.{ℤ, pos, negsuc}
use connectcoin_p2c_tools.Hashes.{to_hex}
use connectcoin_p2c_tools.Protocol.Constants.{max_certificates}
use connectcoin_p2c_tools.Verify.X509.{X509}
use connectcoin_p2c_tools.Verify.Chain.{
  roots_v1_sha256, max_timestamp, from_timestamp, is_before, is_after, bundle_bytes, load_roots,
  check_times, check_supplied_certificate_times, verify_path,
}
use connectcoin_p2c_tools.Verify.Chain.Trusted.{
  HasBoundedKey, IsLoadError, loaded-Ends, check_rsa_public_exponents-Ensures,
  check_rsa_public_exponents-HasBoundedKey,
}

-- `time` is no later than `moment`, and the other way round.
abbrev StartsBy : ℤ → ℕ → Type 0
StartsBy (pos n) moment = n ≤ moment
StartsBy (negsuc n) moment = Unit

abbrev EndsAfter : ℤ → ℕ → Type 0
EndsAfter (pos n) moment = moment ≤ n
EndsAfter (negsuc n) moment = ⊥

StartsBy-of_test : (t : ℤ) (m : ℕ) → is_before m t ≡ false → StartsBy t m
StartsBy-of_test (pos n) m h = ground arith
StartsBy-of_test (negsuc n) m h = tt

EndsAfter-of_test : (t : ℤ) (m : ℕ) → is_after m t ≡ false → EndsAfter t m
EndsAfter-of_test (pos n) m h = ground arith
EndsAfter-of_test (negsuc n) m h = cc

test-StartsBy : (t : ℤ) (m : ℕ) → StartsBy t m → is_before m t ≡ false
test-StartsBy (pos n) m h = ground arith
test-StartsBy (negsuc n) m h = refl

test-EndsAfter : (t : ℤ) (m : ℕ) → EndsAfter t m → is_after m t ≡ false
test-EndsAfter (pos n) m h = ground arith
test-EndsAfter (negsuc n) m h = absurd h

either_false : (a b : Bool) → not (a || b) ≡ true → (a ≡ false) × (b ≡ false)
either_false a b h = ground arith

representable : (t : ℕ) → ltb max_timestamp t ≡ false → t ≤ max_timestamp
representable t h = ground arith

not_too_late : (t : ℕ) → t ≤ max_timestamp → ltb max_timestamp t ≡ false
not_too_late t h = ground arith

from_timestamp-Ensures :
    (t : ℕ)
    → Ensures proof_verification (λ moment. (t ≤ max_timestamp) × (moment ≡ t)) (from_timestamp t)
from_timestamp-Ensures t = elim (Bool-cases (ltb max_timestamp t)) [
  | inl e ↦ rw e rejects
  | inr e ↦ rw e (holds (representable t e, refl))
]

pin_test : (enforce same : Bool) → not (enforce && not same) ≡ true → enforce ≡ true → same ≡ true
pin_test enforce same h e = ground arith

pin_passes :
    (enforce same : Bool) → (enforce ≡ true → same ≡ true) → not (enforce && not same) ≡ true
pin_passes true same h = rw (h refl) refl
pin_passes false same h = refl

module _ (x : X509) where
  -- The certificate is valid at the time.
  abbrev IsTimely : ℕ → x.Certificate → Type 0
  IsTimely moment c =
      StartsBy (x.not_valid_before c) moment × EndsAfter (x.not_valid_after c) moment

  check_times-Ensures :
      (cs : List x.Certificate) (m : ℕ)
      → Ensures proof_verification (λ _. All (IsTimely m) cs) (check_times x cs m)
  unfolding check_times
  check_times-Ensures [] m = holds tt
  check_times-Ensures (c ∷ cs) m =
      Ensures-require (not (is_before m (x.not_valid_before c) || is_after m (x.not_valid_after c)))
        λ test.
          let (early, late) = either_false _ _ test in
          Ensures-weaken
            (λ _ more. (
              (
                StartsBy-of_test (x.not_valid_before c) m early,
                EndsAfter-of_test (x.not_valid_after c) m late,
              ),
              more,
            ))
            (check_times-Ensures cs m)

  check_times-IsTimely :
      (cs : List x.Certificate) (m : ℕ) → All (IsTimely m) cs → check_times x cs m ≡ ok tt
  unfolding check_times
  check_times-IsTimely [] m h = refl
  check_times-IsTimely (c ∷ cs) m ((starts, ends), more) =
      rw
        (test-StartsBy (x.not_valid_before c) m starts, test-EndsAfter (x.not_valid_after c) m ends)
        (check_times-IsTimely cs m more)

  abbrev pub AreTimely : ℕ → List x.Certificate → Type 0
  AreTimely validation_time cs =
      (validation_time ≤ max_timestamp) × All (IsTimely validation_time) cs

  pub check_supplied_certificate_times-Ensures :
      (cs : List x.Certificate) (t : ℕ)
      → Ensures proof_verification (λ _. AreTimely t cs) (check_supplied_certificate_times x cs t)
  unfolding check_supplied_certificate_times
  check_supplied_certificate_times-Ensures cs t =
      Ensures-bind (from_timestamp-Ensures t) λ moment (early, e).
        Ensures-weaken (λ _ h. (early, subst (λ (m : ℕ). All (IsTimely m) cs) e h))
          (check_times-Ensures cs moment)

  pub check_supplied_certificate_times-AreTimely :
      (cs : List x.Certificate) (t : ℕ)
      → AreTimely t cs
      → check_supplied_certificate_times x cs t ≡ ok tt
  unfolding check_supplied_certificate_times
  check_supplied_certificate_times-AreTimely cs t (early, h) =
      rw (not_too_late t early) (check_times-IsTimely cs t h)

  -- The path verifier takes the leaf and the certificates after it, at the time.
  abbrev pub HasPath : List x.Certificate → List x.Certificate → List ℕ → ℕ → Type 0
  HasPath [] roots domain t = ⊥
  HasPath (leaf ∷ intermediates) roots domain t =
      (t ≤ max_timestamp)
      × (x.verify_path roots t (max_certificates - 1) domain leaf intermediates ≡ true)

  pub verify_path-Ensures :
      (leaf : x.Certificate) (cs roots : List x.Certificate) (domain : List ℕ) (t : ℕ)
      → Ensures proof_verification
          (λ _. HasPath (leaf ∷ cs) roots domain t)
          (verify_path x (leaf ∷ cs) roots domain t)
  unfolding verify_path
  verify_path-Ensures leaf cs roots domain t =
      Ensures-bind (from_timestamp-Ensures t) λ moment (early, e).
        Ensures-test (x.verify_path roots moment (max_certificates - 1) domain leaf cs) λ test. (
          early,
          subst (λ (m : ℕ). x.verify_path roots m (max_certificates - 1) domain leaf cs ≡ true) e
              test,
        )

  pub verify_path-HasPath :
      (cs roots : List x.Certificate) (domain : List ℕ) (t : ℕ)
      → HasPath cs roots domain t
      → verify_path x cs roots domain t ≡ ok tt
  unfolding verify_path
  verify_path-HasPath [] roots domain t h = absurd h
  verify_path-HasPath (leaf ∷ cs) roots domain t (early, h) = rw (not_too_late t early, h) refl

  bundle_bytes-Ensures :
      (file : Option Bytes)
      → Ensures proof_verification (λ encoded. file ≡ some encoded) (bundle_bytes x file)
  bundle_bytes-Ensures none = rejects
  bundle_bytes-Ensures (some encoded) = holds refl

  not_empty : (roots : List x.Certificate) → not (is_empty roots) ≡ true → roots ≢ []
  not_empty [] h = cc
  not_empty (root ∷ roots) h = cc

  some_root : (roots : List x.Certificate) → roots ≢ [] → not (is_empty roots) ≡ true
  some_root [] h = absurd (h refl)
  some_root (root ∷ roots) h = refl

  module _ (sha256 : Bytes → Bytes) where
    -- The roots of the bundle, which is of version 1 and has the pinned hash where that is asked.
    abbrev pub AreRoots : Option Bytes → ℕ → Bool → List x.Certificate → Type 0
    AreRoots file version enforce_root_pin roots =
        (encoded : Bytes) × (file ≡ some encoded)
        × (version ≡ 1)
        × (enforce_root_pin ≡ true → to_hex (sha256 encoded) ≡ roots_v1_sha256)
        × (x.load_pem encoded ≡ inr roots)
        × (roots ≢ [])
        × All (HasBoundedKey x) roots

    pub load_roots-Ends :
        (file : Option Bytes) (version : ℕ) (enforce : Bool)
        → Ends
            (IsLoadError x.load_pem)
            (AreRoots file version enforce)
            (load_roots x sha256 file version enforce)
    unfolding load_roots
    load_roots-Ends file version enforce =
        Ends-bind (Ensures-Ends (inl refl) (bundle_bytes-Ensures file)) λ encoded read.
          Ends-require (version == 1) proof_verification (inl refl) λ one.
            Ends-require (not (enforce && not (bytes_eq (to_hex (sha256 encoded)) roots_v1_sha256)))
              proof_verification (inl refl)
              λ pin. Ends-bind (loaded-Ends x.load_pem encoded) λ roots loads.
                Ends-require (not (is_empty roots)) proof_verification (inl refl) λ some_loaded.
                  Ends-bind (Ensures-Ends (inl refl) (check_rsa_public_exponents-Ensures x roots))
                    λ _ bounded. returns (
                      encoded,
                      read,
                      ==→eq version 1 one,
                      (λ e. bytes_eq→eq _ _ (pin_test enforce _ pin e)),
                      loads,
                      not_empty roots some_loaded,
                      bounded,
                    )

    pub load_roots-AreRoots :
        (file : Option Bytes) (version : ℕ) (enforce : Bool) (roots : List x.Certificate)
        → AreRoots file version enforce roots
        → load_roots x sha256 file version enforce ≡ ok roots
    unfolding load_roots
    load_roots-AreRoots file version enforce roots
          (encoded, read, one, pin, loads, some_loaded, bounded) =
        let passes : not (enforce && not (bytes_eq (to_hex (sha256 encoded)) roots_v1_sha256))
            ≡ true =
          pin_passes enforce _ (λ e. rw (pin e) (bytes_eq_refl roots_v1_sha256)) in
        rw (read, one, passes, loads, some_root roots some_loaded)
          (rw (check_rsa_public_exponents-HasBoundedKey x roots bounded) refl)
