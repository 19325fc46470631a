-- ===== src/Hashes/Display.antt =====
-- Display form of a hash and its internal bytes (src/connectcoin_p2c_tools/hashes.py).
use mathlib.Core.List.{reverse, reverse-reverse}
use connectcoin_p2c_tools.Common.{
  ℕ, ◌*◌, ◌≡◌, ◌↔◌, inl, inr, sym, ap, ◌∙◌, subst, true, List, map, arith, length, Bytes, AreBytes,
  bytes_eq, bytes_eq_refl, ◌==◌, ==→eq, eq→==, Bool-cases,
}
use connectcoin_p2c_tools.Common.Outcome.{ok, ◌>>=◌, bind_ok, require_ok}
use connectcoin_p2c_tools.Hashes.{
  lower_char, all_hex_digits, from_hex, to_hex, display_hash_to_internal, internal_hash_to_display,
}
use connectcoin_p2c_tools.Hashes.Hex.{
  length-reverse, AreBytes-reverse, length-to_hex, all_hex_digits-to_hex, lower-to_hex,
  from_hex-to_hex, HexText, hex_text,
}

-- Text that shows a hash, and the hash in display order.
pub record ShowsHash (t : List ℕ) (b : Bytes) : Type 0 where
  pub shown : Bytes
  pub text : HexText t shown
  pub size : length t ≡ 64
  pub backwards : b ≡ reverse shown

shows_hash :
    (t : List ℕ) (b : Bytes)
    → (length t == 64) ≡ true
    → all_hex_digits t ≡ true
    → (from_hex t >>= λ encoded. ok (reverse encoded)) ≡ ok b
    → ShowsHash t b
shows_hash t b l d h =
    let size : length t ≡ 64 = ==→eq _ _ l in
    let (bs, text) = hex_text 32 t size d in
    record { shown = bs; text = text; size = size; backwards = cc (rw (text.reads) at h) }

pub display-shows : (t : List ℕ) (b : Bytes) → display_hash_to_internal t ≡ ok b → ShowsHash t b
unfolding display_hash_to_internal
display-shows t b h = elim (Bool-cases (length t == 64)) [
  | inr e ↦ cc (rw e at h)
  | inl e ↦ elim (Bool-cases (bytes_eq t (map lower_char t))) [
    | inr f ↦ cc (rw (e, f) at h)
    | inl f ↦ elim (Bool-cases (all_hex_digits t)) [
      | inr g ↦ cc (rw (e, f, g) at h)
      | inl g ↦ shows_hash t b e g (rw (e, f, g) at h)
    ]
  ]
]

length-shown : (n : ℕ) (t : List ℕ) (bs : Bytes) → to_hex bs ≡ t → length t ≡ 2 * n → length bs ≡ n
length-shown n t bs e l = omega (arith, ap length e, length-to_hex bs)

display_of_internal :
    (t : List ℕ) (b : Bytes)
    → ShowsHash t b
    → (length b ≡ 32) × AreBytes b × (internal_hash_to_display b ≡ ok t)
unfolding internal_hash_to_display
display_of_internal t b s =
    let size : length b ≡ 32 =
      ap length s.backwards
      ∙ length-reverse s.shown
      ∙ length-shown 32 t s.shown (s.text.printed) s.size in
    (
      size,
      subst AreBytes (sym s.backwards) (AreBytes-reverse s.shown (s.text.are_bytes)),
      require_ok _ (eq→== _ _ size) (
          ap (λ (x : Bytes). ok (to_hex (reverse x))) s.backwards
          ∙ ap (λ (x : Bytes). ok (to_hex x)) (reverse-reverse s.shown)
          ∙ ap (λ (x : Bytes). ok x) (s.text.printed)),
    )

internal_of_display :
    (t : List ℕ) (b : Bytes)
    → length b ≡ 32
    → AreBytes b
    → internal_hash_to_display b ≡ ok t
    → display_hash_to_internal t ≡ ok b
unfolding display_hash_to_internal internal_hash_to_display
internal_of_display t b l a h =
    let l' : (length b == 32) ≡ true = eq→== _ _ l in
    let shown : to_hex (reverse b) ≡ t = cc (rw l' at h) in
    let ar = AreBytes-reverse b a in
    let size : length t ≡ 64 =
      omega (arith, ap length shown, length-to_hex (reverse b), length-reverse b) in
    let lower : bytes_eq t (map lower_char t) ≡ true =
      subst (λ (x : List ℕ). bytes_eq x (map lower_char x) ≡ true) shown
        (rw (lower-to_hex (reverse b) ar) (bytes_eq_refl (to_hex (reverse b)))) in
    let digits : all_hex_digits t ≡ true =
      subst (λ (x : List ℕ). all_hex_digits x ≡ true) shown
        (all_hex_digits-to_hex (reverse b) ar) in
    let reads : from_hex t ≡ ok (reverse b) =
      subst (λ (x : List ℕ). from_hex x ≡ ok (reverse b)) shown (from_hex-to_hex (reverse b) ar) in
    require_ok _ (eq→== _ _ size) (
      require_ok _ lower
        (require_ok _ digits (bind_ok _ reads (ap (λ (x : Bytes). ok x) (reverse-reverse b)))))

-- A text is read as an internal hash exactly if that is 32 bytes that are displayed as the text.
pub display_hash_to_internal_iff :
    (t : List ℕ) (b : Bytes)
    → (display_hash_to_internal t ≡ ok b)
      ↔ ((length b ≡ 32) × AreBytes b × (internal_hash_to_display b ≡ ok t))
display_hash_to_internal_iff t b =
    (λ h. display_of_internal t b (display-shows t b h), λ (l, a, h). internal_of_display t b l a h)
