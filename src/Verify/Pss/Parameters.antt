-- ===== src/Verify/Pss/Parameters.antt =====
-- What the parameters of an RSA-PSS key are once src/connectcoin_p2c_tools/verify.py has read them.
use mathlib.Core.Path.{ap₂}
use connectcoin_p2c_tools.Common.{
  ℕ, ◌≤◌, ◌≡◌, ◌≢◌, inl, inr, refl, sym, ap, ◌∙◌, subst, true, false, not, ◌&&◌, List, [], ◌∷◌, ltb,
  arith, Bytes, &&-eq_true, not_ltb→le,
}
use connectcoin_p2c_tools.Verify.Der.{Element}
use connectcoin_p2c_tools.Verify.Der.Values.{IsInteger}
use connectcoin_p2c_tools.Verify.Pss.{Restrictions, unrestricted_sha1, permits_sha256}
use connectcoin_p2c_tools.Verify.Pss.Limits.{IsHash, IsMgf1, Effect, Reads}

-- The parameters after those for the hash and the mask: a minimum salt that 32 bytes meet, and
-- the one trailer field there is.
pub data SaltAndTrailer : List Element → Type 0 where
  neither : SaltAndTrailer []
  salt_only :
      {value : Bytes} (n : ℕ) → IsInteger n value → n ≤ 32 → SaltAndTrailer ((0xa2, value) ∷ [])
  trailer_only : {value : Bytes} → IsInteger 1 value → SaltAndTrailer ((0xa3, value) ∷ [])
  both :
      {value trailer : Bytes} (n : ℕ)
      → IsInteger n value
      → n ≤ 32
      → IsInteger 1 trailer
      → SaltAndTrailer ((0xa2, value) ∷ (0xa3, trailer) ∷ [])

-- Parameters that let the key sign with SHA-256, MGF1 with SHA-256 and 32 bytes of salt.
abbrev pub ArePermitted : List Element → Type 0
ArePermitted parameters =
    (hash : Bytes) × (mask : Bytes) × (rest : List Element) × (parameters
      ≡ (0xa0, hash) ∷ (0xa1, mask) ∷ rest)
    × IsHash hash
    × IsMgf1 mask
    × SaltAndTrailer rest

keeps_hash :
    (es : List Element) (previous_tag : ℕ) (p last : Restrictions)
    → 0xa0 ≤ previous_tag
    → Reads es previous_tag p last
    → last.hash_is_sha256 ≡ p.hash_is_sha256
keeps_hash [] t p last h e = ap (λ (r : Restrictions). r.hash_is_sha256) (sym e)
keeps_hash ((tag, value) ∷ es) t p last h (order, after, inl (e, _, _, _), rest) =
    absurd (omega arith)
keeps_hash ((tag, value) ∷ es) t p last h (order, after, inr (inl (_, _, _, e)), rest) =
    keeps_hash es tag after last (omega arith) rest ∙ ap (λ (r : Restrictions). r.hash_is_sha256) e
keeps_hash ((tag, value) ∷ es) t p last h (order, after, inr (inr (inl (_, _, _, e))), rest) =
    keeps_hash es tag after last (omega arith) rest ∙ ap (λ (r : Restrictions). r.hash_is_sha256) e
keeps_hash ((tag, value) ∷ es) t p last h (order, after, inr (inr (inr (_, _, e))), rest) =
    keeps_hash es tag after last (omega arith) rest ∙ ap (λ (r : Restrictions). r.hash_is_sha256) e

keeps_mask :
    (es : List Element) (previous_tag : ℕ) (p last : Restrictions)
    → 0xa1 ≤ previous_tag
    → Reads es previous_tag p last
    → last.mgf1_is_sha256 ≡ p.mgf1_is_sha256
keeps_mask [] t p last h e = ap (λ (r : Restrictions). r.mgf1_is_sha256) (sym e)
keeps_mask ((tag, value) ∷ es) t p last h (order, after, inl (e, _, _, _), rest) =
    absurd (omega arith)
keeps_mask ((tag, value) ∷ es) t p last h (order, after, inr (inl (e, _, _, _)), rest) =
    absurd (omega arith)
keeps_mask ((tag, value) ∷ es) t p last h (order, after, inr (inr (inl (_, _, _, e))), rest) =
    keeps_mask es tag after last (omega arith) rest ∙ ap (λ (r : Restrictions). r.mgf1_is_sha256) e
keeps_mask ((tag, value) ∷ es) t p last h (order, after, inr (inr (inr (_, _, e))), rest) =
    keeps_mask es tag after last (omega arith) rest ∙ ap (λ (r : Restrictions). r.mgf1_is_sha256) e

nothing_left :
    (es : List Element) (previous_tag : ℕ) (p last : Restrictions)
    → 0xa3 ≤ previous_tag
    → Reads es previous_tag p last
    → es ≡ []
nothing_left [] t p last h e = refl
nothing_left ((tag, value) ∷ es) t p last h (order, after, inl (e, _, _, _), rest) =
    absurd (omega arith)
nothing_left ((tag, value) ∷ es) t p last h (order, after, inr (inl (e, _, _, _)), rest) =
    absurd (omega arith)
nothing_left ((tag, value) ∷ es) t p last h (order, after, inr (inr (inl (e, _, _, _))), rest) =
    absurd (omega arith)
nothing_left ((tag, value) ∷ es) t p last h (order, after, inr (inr (inr (e, _, _))), rest) =
    absurd (omega arith)

salt_and_trailer :
    (es : List Element) (previous_tag : ℕ) (p last : Restrictions)
    → 0xa1 ≤ previous_tag
    → last.minimum_salt ≤ 32
    → Reads es previous_tag p last
    → SaltAndTrailer es
salt_and_trailer [] t p last h k r = neither
salt_and_trailer ((tag, value) ∷ es) t p last h k (order, after, inl (e, _, _, _), rest) =
    absurd (omega arith)
salt_and_trailer ((tag, value) ∷ es) t p last h k (order, after, inr (inl (e, _, _, _)), rest) =
    absurd (omega arith)
salt_and_trailer ((tag, value) ∷ []) t p last h k
      (order, after, inr (inr (inl (e, salt, is, f))), rest) =
    subst (λ (x : ℕ). SaltAndTrailer ((x, value) ∷ [])) (sym e)
      (salt_only salt is (subst (λ (r : Restrictions). r.minimum_salt ≤ 32) (sym rest ∙ f) k))
salt_and_trailer ((tag, value) ∷ (tag', value') ∷ es) t p last h k
      (order, after, inr (inr (inl (e, salt, is, f))), (order', after', effect, rest)) =
    after_salt effect
  where
    after_salt :
        Effect tag' value' after after' → SaltAndTrailer ((tag, value) ∷ (tag', value') ∷ es)
    after_salt (inl (e', _, _, _)) = absurd (omega arith)
    after_salt (inr (inl (e', _, _, _))) = absurd (omega arith)
    after_salt (inr (inr (inl (e', _, _, _)))) = absurd (omega arith)
    after_salt (inr (inr (inr (e', is', f')))) =
        let none = nothing_left es tag' after' last (omega arith) rest in
        let ends : after' ≡ last =
          subst (λ (x : List Element). Reads x tag' after' last) none rest in
        subst (λ (x : List Element). SaltAndTrailer ((tag, value) ∷ (tag', value') ∷ x)) (sym none)
          (subst (λ (x : ℕ). SaltAndTrailer ((x, value) ∷ (tag', value') ∷ [])) (sym e)
            (subst (λ (x : ℕ). SaltAndTrailer ((0xa2, value) ∷ (x, value') ∷ [])) (sym e')
              (both salt is
                (subst (λ (r : Restrictions). r.minimum_salt ≤ 32) (sym ends ∙ (f' ∙ f)) k) is')))
salt_and_trailer ((tag, value) ∷ es) t p last h k (order, after, inr (inr (inr (e, is, f))), rest) =
    subst (λ (x : List Element). SaltAndTrailer ((tag, value) ∷ x))
      (sym (nothing_left es tag after last (omega arith) rest))
      (subst (λ (x : ℕ). SaltAndTrailer ((x, value) ∷ [])) (sym e) (trailer_only is))

-- What was read permits SHA-256 only if the first two parameters name it.
mask_next :
    (es : List Element) (p last : Restrictions)
    → p.mgf1_is_sha256 ≡ false
    → last.mgf1_is_sha256 ≡ true
    → last.minimum_salt ≤ 32
    → Reads es 0xa0 p last
    → (mask : Bytes) × (rest : List Element) × (es ≡ (0xa1, mask) ∷ rest)
      × IsMgf1 mask
      × SaltAndTrailer rest
mask_next [] p last unset set salt r = absurd (cc)
mask_next ((tag, value) ∷ es) p last unset set salt (order, after, inl (e, _, _, _), rest) =
    absurd (omega arith)
mask_next ((tag, value) ∷ es) p last unset set salt
      (order, after, inr (inl (e, named, is, f)), rest) =
    let kept = keeps_mask es tag after last (omega arith) rest in
    let here : named ≡ true =
      sym (ap (λ (r : Restrictions). r.mgf1_is_sha256) f) ∙ (sym kept ∙ set) in
    (
      value,
      es,
      ap (λ (x : ℕ). (x, value) ∷ es) e,
      is here,
      salt_and_trailer es tag after last (omega arith) salt rest,
    )
mask_next ((tag, value) ∷ es) p last unset set salt
      (order, after, inr (inr (inl (e, _, _, f))), rest) =
    absurd (
      never (
        keeps_mask es tag after last (omega arith) rest
        ∙ ap (λ (r : Restrictions). r.mgf1_is_sha256) f))
  where
    never : last.mgf1_is_sha256 ≢ p.mgf1_is_sha256
    never h = cc
mask_next ((tag, value) ∷ es) p last unset set salt
      (order, after, inr (inr (inr (e, _, f))), rest) =
    absurd (
      never (
        keeps_mask es tag after last (omega arith) rest
        ∙ ap (λ (r : Restrictions). r.mgf1_is_sha256) f))
  where
    never : last.mgf1_is_sha256 ≢ p.mgf1_is_sha256
    never h = cc

permitted_tests :
    (p : Restrictions)
    → permits_sha256 p ≡ true
    → (p.hash_is_sha256 ≡ true) × (p.mgf1_is_sha256 ≡ true) × (p.minimum_salt ≤ 32)
permitted_tests p h =
    let (hash, rest) =
      &&-eq_true p.hash_is_sha256 (p.mgf1_is_sha256 && not (ltb 32 p.minimum_salt)) h in
    let (mask, salt) = &&-eq_true p.mgf1_is_sha256 (not (ltb 32 p.minimum_salt)) rest in
    (hash, mask, not_ltb→le 32 p.minimum_salt salt)

no_hash : (last : Restrictions) → last.hash_is_sha256 ≡ true → last.hash_is_sha256 ≢ false
no_hash last h k = cc

pub Reads-ArePermitted :
    (es : List Element) (last : Restrictions)
    → permits_sha256 last ≡ true
    → Reads es 0x9f unrestricted_sha1 last
    → ArePermitted es
Reads-ArePermitted [] last h r =
    let (set, _, _) = permitted_tests last h in
    absurd (no_hash last set (ap (λ (r : Restrictions). r.hash_is_sha256) (sym r)))
Reads-ArePermitted ((tag, value) ∷ es) last h (order, after, inl (e, named, is, f), rest) =
    let (hash_set, mask_set, salt) = permitted_tests last h in
    let kept = keeps_hash es tag after last (omega arith) rest in
    let here : named ≡ true =
      sym (ap (λ (r : Restrictions). r.hash_is_sha256) f) ∙ (sym kept ∙ hash_set) in
    let (mask, more, layout, mask_is, limits) =
      mask_next es after last (ap (λ (r : Restrictions). r.mgf1_is_sha256) f) mask_set salt
        (subst (λ (x : ℕ). Reads es x after last) e rest) in
    (
      value,
      mask,
      more,
      ap₂ (λ (x : ℕ) (y : List Element). (x, value) ∷ y) e layout,
      is here,
      mask_is,
      limits,
    )
Reads-ArePermitted ((tag, value) ∷ es) last h (order, after, inr (inl (e, _, _, f)), rest) =
    let (set, _, _) = permitted_tests last h in
    absurd (
      no_hash last set (
        keeps_hash es tag after last (omega arith) rest
        ∙ ap (λ (r : Restrictions). r.hash_is_sha256) f))
Reads-ArePermitted ((tag, value) ∷ es) last h (order, after, inr (inr (inl (e, _, _, f))), rest) =
    let (set, _, _) = permitted_tests last h in
    absurd (
      no_hash last set (
        keeps_hash es tag after last (omega arith) rest
        ∙ ap (λ (r : Restrictions). r.hash_is_sha256) f))
Reads-ArePermitted ((tag, value) ∷ es) last h (order, after, inr (inr (inr (e, _, f))), rest) =
    let (set, _, _) = permitted_tests last h in
    absurd (
      no_hash last set (
        keeps_hash es tag after last (omega arith) rest
        ∙ ap (λ (r : Restrictions). r.hash_is_sha256) f))
