-- ===== src/Verify/Leaf/Usage.antt =====
-- The extensions of the leaf that src/connectcoin_p2c_tools/verify.py takes.
use connectcoin_p2c_tools.Common.{
  ℕ, ◌≡◌, ◌≢◌, ◌⊎◌, inl, inr, refl, Bool, true, false, List, [], ◌∷◌, Option, none, some, bytes_eq,
  bytes_eq→eq, bytes_eq_refl, Bool-cases,
}
use connectcoin_p2c_tools.Common.Outcome.{
  Exception, ok, proof_verification, Ends, stops, Ends-require, Ends-test, require, ◌>>=◌, ◌>>◌,
}
use connectcoin_p2c_tools.Verify.X509.{X509, Usages}
use connectcoin_p2c_tools.Verify.Leaf.{
  server_auth, any_usage, has_usage, may_sign, may_serve, read_usages, check_leaf_usage,
}

abbrev Contains : List ℕ → List (List ℕ) → Type 0
Contains oid [] = ⊥
Contains oid (u ∷ usages) = (u ≡ oid) ⊎ Contains oid usages

Contains-of_test : (oid : List ℕ) (l : List (List ℕ)) → has_usage oid l ≡ true → Contains oid l
Contains-of_test oid [] h = cc
Contains-of_test oid (u ∷ l) h = elim (Bool-cases (bytes_eq u oid)) [
  | inl e ↦ inl (bytes_eq→eq u oid e)
  | inr e ↦ inr (Contains-of_test oid l (rw e at h))
]

test-Contains : (oid : List ℕ) (l : List (List ℕ)) → Contains oid l → has_usage oid l ≡ true
test-Contains oid [] h = absurd h
test-Contains oid (u ∷ l) (inl e) = rw (e, bytes_eq_refl oid) refl
test-Contains oid (u ∷ l) (inr h) = elim (Bool-cases (bytes_eq u oid)) [
  | inl e ↦ rw e refl
  | inr e ↦ rw e (test-Contains oid l h)
]

signs : (o : Option Bool) → may_sign o ≡ true → o ≢ some false
signs none h = cc
signs (some true) h = cc
signs (some false) h = cc

signs_test : (o : Option Bool) → o ≢ some false → may_sign o ≡ true
signs_test none h = refl
signs_test (some true) h = refl
signs_test (some false) h = absurd (h refl)

-- No ExtendedKeyUsage, or one that names TLS servers or any use.
abbrev Serves : Option (List (List ℕ)) → Type 0
Serves o =
    (o ≡ none)
    ⊎ ((listed : List (List ℕ)) × (o ≡ some listed)
        × (Contains server_auth listed ⊎ Contains any_usage listed))

Serves-of_test : (o : Option (List (List ℕ))) → may_serve o ≡ true → Serves o
Serves-of_test none h = inl refl
Serves-of_test (some l) h = elim (Bool-cases (has_usage server_auth l)) [
  | inl e ↦ inr (l, refl, inl (Contains-of_test server_auth l e))
  | inr e ↦ inr (l, refl, inr (Contains-of_test any_usage l (rw e at h)))
]

test-Serves : (o : Option (List (List ℕ))) → Serves o → may_serve o ≡ true
test-Serves o (inl e) = rw e refl
test-Serves o (inr (l, e, inl h)) = rw (e, test-Contains server_auth l h) refl
test-Serves o (inr (l, e, inr h)) = elim (Bool-cases (has_usage server_auth l)) [
  | inl f ↦ rw (e, f) refl
  | inr f ↦ rw (e, f, test-Contains any_usage l h) refl
]

module _ (x : X509) (leaf : x.Certificate) where
  -- The extensions let the key sign and let the certificate stand for a TLS server.
  abbrev pub MayAuthenticate : Type 0
  MayAuthenticate =
      (usages : Usages) × (x.usages leaf ≡ inr usages)
      × (usages.digital_signature ≢ some false)
      × Serves usages.extended_usage

  pub check_leaf_usage-Ends :
      (E : Exception → Type 0)
      → E proof_verification
      → ((e : Exception) → x.usages leaf ≡ inl e → E e)
      → Ends E (λ _. MayAuthenticate) (check_leaf_usage x leaf)
  unfolding check_leaf_usage
  check_leaf_usage-Ends E v k = by_usages (x.usages leaf) refl
    where
      by_usages :
          (u : Exception ⊎ Usages)
          → x.usages leaf ≡ u
          → Ends E
              (λ _. MayAuthenticate)
              (read_usages u >>= λ usages.
                require (may_sign usages.digital_signature) proof_verification
                >> require (may_serve usages.extended_usage) proof_verification)
      by_usages (inl e) f = stops (k e f)
      by_usages (inr usages) f =
          Ends-require (may_sign usages.digital_signature) proof_verification v λ signing.
            Ends-test (may_serve usages.extended_usage) proof_verification v λ serving.
              (usages, f, signs usages.digital_signature signing, Serves-of_test _ serving)

  pub check_leaf_usage-MayAuthenticate : MayAuthenticate → check_leaf_usage x leaf ≡ ok tt
  unfolding check_leaf_usage
  check_leaf_usage-MayAuthenticate (usages, f, signing, serving) =
      rw (f, signs_test usages.digital_signature signing, test-Serves usages.extended_usage serving)
        refl
