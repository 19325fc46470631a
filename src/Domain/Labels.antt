-- ===== src/Domain/Labels.antt =====
-- Canonical domains (src/connectcoin_p2c_tools/domain.py), by their labels.
use connectcoin_p2c_tools.Common.{
  ℕ, ◌≤◌, ◌≡◌, ◌↔◌, ◌⊎◌, inl, inr, refl, sym, ap, ◌∙◌, Bool, true, false, ◌&&◌, ◌||◌, List, [], ◌∷◌,
  ◌++◌, arith, length, All, leb, ltb, leb→le, le→leb, Bool-cases, is_empty, append-nil,
}
use connectcoin_p2c_tools.Domain.{
  is_ascii, starts_with, ends_with, split, is_label_char, all_label_chars, is_label, all_labels,
  is_canonical_domain,
}
use connectcoin_p2c_tools.Domain.Splitting.{dotted, split_shape, dotted-split, NoDot, split-dotted}

abbrev IsLabelChar : ℕ → Type 0
IsLabelChar c = ((97 ≤ c) × (c ≤ 122)) ⊎ (((48 ≤ c) × (c ≤ 57)) ⊎ (c ≡ 45))

-- A label has 1 to 63 letters, digits and hyphens, and no hyphen first or last.
pub record IsLabel (label : List ℕ) : Type 0 where
  pub some : 1 ≤ length label
  pub few : length label ≤ 63
  pub first : starts_with b'-' label ≡ false
  pub last : ends_with b'-' label ≡ false
  pub chars : All IsLabelChar label

is_label_char_iff : (c : ℕ) → (is_label_char c ≡ true) ↔ IsLabelChar c
is_label_char_iff c = (ground arith, ground arith)

and_both : (a b : Bool) → (a && b) ≡ true → (a ≡ true) × (b ≡ true)
and_both true b h = (refl, h)
and_both false b h = cc

all_label_chars_iff : (s : List ℕ) → (all_label_chars s ≡ true) ↔ All IsLabelChar s
unfolding all_label_chars
all_label_chars_iff [] = (λ h. tt, λ h. refl)
all_label_chars_iff (c ∷ s) = (
  λ h.
      let (a, b) = and_both (is_label_char c) (all_label_chars s) h in
      ((is_label_char_iff c).0 a, (all_label_chars_iff s).0 b),
  λ (a, b). rw ((is_label_char_iff c).1 a, (all_label_chars_iff s).1 b) refl,
)

is_label_iff : (l : List ℕ) → (is_label l ≡ true) ↔ IsLabel l
unfolding is_label
is_label_iff l = (
  λ h. elim (Bool-cases (leb 1 (length l))) [
    | inr e ↦ cc (rw e at h)
    | inl e₁ ↦ elim (Bool-cases (leb (length l) 63)) [
      | inr e ↦ cc (rw (e₁, e) at h)
      | inl e₂ ↦ elim (Bool-cases (starts_with b'-' l)) [
        | inl e ↦ cc (rw (e₁, e₂, e) at h)
        | inr e₃ ↦ elim (Bool-cases (ends_with b'-' l)) [
          | inl e ↦ cc (rw (e₁, e₂, e₃, e) at h)
          | inr e₄ ↦ record {
            some = leb→le _ _ e₁;
            few = leb→le _ _ e₂;
            first = e₃;
            last = e₄;
            chars = (all_label_chars_iff l).0 (rw (e₁, e₂, e₃, e₄) at h);
          }
        ]
      ]
    ]
  ],
  λ k.
      rw
        (
          le→leb 1 (length l) k.some,
          le→leb (length l) 63 k.few,
          k.first,
          k.last,
          (all_label_chars_iff l).1 k.chars,
        )
        refl,
)

all_labels_iff : (ls : List (List ℕ)) → (all_labels ls ≡ true) ↔ All IsLabel ls
unfolding all_labels
all_labels_iff [] = (λ h. tt, λ h. refl)
all_labels_iff (l ∷ ls) = (
  λ h. elim (Bool-cases (is_label l)) [
    | inl e ↦ ((is_label_iff l).0 e, (all_labels_iff ls).0 (rw e at h))
    | inr e ↦ cc (rw e at h)
  ],
  λ (a, b). rw ((is_label_iff l).1 a, (all_labels_iff ls).1 b) refl,
)

label-NoDot : (l : List ℕ) → All IsLabelChar l → NoDot l
label-NoDot [] h = tt
label-NoDot (c ∷ l) (h, k) = (ground arith, label-NoDot l k)

labels-NoDot : (ls : List (List ℕ)) → All IsLabel ls → All NoDot ls
labels-NoDot [] h = tt
labels-NoDot (l ∷ ls) (h, k) = (label-NoDot l h.chars, labels-NoDot ls k)

char_ascii : (c : ℕ) → IsLabelChar c → ltb c 128 ≡ true
char_ascii c h = ground arith

ascii_label : (l s : List ℕ) → All IsLabelChar l → is_ascii s ≡ true → is_ascii (l ++ s) ≡ true
unfolding is_ascii
ascii_label [] s h k = k
ascii_label (c ∷ l) s (h, hs) k = rw (char_ascii c h, ascii_label l s hs k) refl

ascii_dotted : (ls : List (List ℕ)) → All IsLabel ls → is_ascii (dotted ls) ≡ true
unfolding is_ascii
ascii_dotted [] h = refl
ascii_dotted (l ∷ []) (h, k) = rw (sym (append-nil l)) (ascii_label l [] h.chars refl)
ascii_dotted (l ∷ m ∷ ls) (h, k) =
    ascii_label l (b'.' ∷ dotted (m ∷ ls)) h.chars (rw (ascii_dotted (m ∷ ls) k) refl)

ends_with-append : (c d : ℕ) (a b : List ℕ) → ends_with c (a ++ (d ∷ b)) ≡ ends_with c (d ∷ b)
unfolding ends_with
ends_with-append c d [] b = refl
ends_with-append c d (x ∷ []) b = refl
ends_with-append c d (x ∷ y ∷ a) b = ends_with-append c d (y ∷ a) b

ends_with-dot : (s : List ℕ) → 1 ≤ length s → ends_with b'.' (b'.' ∷ s) ≡ ends_with b'.' s
unfolding ends_with
ends_with-dot [] h = absurd (omega arith)
ends_with-dot (x ∷ s) h = refl

label_end : (l : List ℕ) → NoDot l → ends_with b'.' l ≡ false
unfolding ends_with
label_end [] h = refl
label_end (c ∷ []) (h, k) = h
label_end (c ∷ d ∷ l) (h, k) = label_end (d ∷ l) k

dotted_some : (l : List ℕ) (ls : List (List ℕ)) → IsLabel l → 1 ≤ length (dotted (l ∷ ls))
dotted_some l [] h = h.some
dotted_some (c ∷ l) (m ∷ ls) h = omega arith
dotted_some [] (m ∷ ls) h = omega arith

dotted_end : (ls : List (List ℕ)) → All IsLabel ls → ends_with b'.' (dotted ls) ≡ false
unfolding ends_with
dotted_end [] h = refl
dotted_end (l ∷ []) (h, k) = label_end l (label-NoDot l h.chars)
dotted_end (l ∷ m ∷ ls) (h, k) =
    ends_with-append b'.' b'.' l (dotted (m ∷ ls))
    ∙ ends_with-dot (dotted (m ∷ ls)) (dotted_some m ls k.0)
    ∙ dotted_end (m ∷ ls) k

-- The names of a host: labels with a dot between each two, in 253 characters at most.
pub record IsDomain (domain : List ℕ) : Type 0 where
  pub labels : List (List ℕ)
  pub some : 1 ≤ length labels
  pub are_labels : All IsLabel labels
  pub layout : domain ≡ dotted labels
  pub few : length domain ≤ 253

IsDomain-of_test : (d : List ℕ) → is_canonical_domain d ≡ true → IsDomain d
unfolding is_canonical_domain
IsDomain-of_test d h = elim (Bool-cases (is_ascii d)) [
  | inr e ↦ cc (rw e at h)
  | inl e ↦ elim (Bool-cases (is_empty d || (ltb 253 (length d) || ends_with b'.' d))) [
    | inl f ↦ cc (rw (e, f) at h)
    | inr f ↦
        let (l, ls, shape) = split_shape d in
        record {
          labels = split b'.' d;
          some = rw shape (omega arith);
          are_labels = (all_labels_iff (split b'.' d)).0 (rw (e, f) at h);
          layout = sym (dotted-split d);
          few = ground arith;
        }
  ]
]

test_of_labels :
    (l : List ℕ) (ls : List (List ℕ))
    → All IsLabel (l ∷ ls)
    → length (dotted (l ∷ ls)) ≤ 253
    → is_canonical_domain (dotted (l ∷ ls)) ≡ true
unfolding is_canonical_domain
test_of_labels l ls h few =
    let some : is_empty (dotted (l ∷ ls)) ≡ false =
      not_empty (dotted (l ∷ ls)) (dotted_some l ls h.0) in
    let short : ltb 253 (length (dotted (l ∷ ls))) ≡ false = ground arith in
    rw
      (
        ascii_dotted (l ∷ ls) h,
        some,
        short,
        dotted_end (l ∷ ls) h,
        split-dotted l ls (labels-NoDot (l ∷ ls) h),
      )
      ((all_labels_iff (l ∷ ls)).1 h)
  where
    not_empty : (s : List ℕ) → 1 ≤ length s → is_empty s ≡ false
    not_empty [] k = absurd (omega arith)
    not_empty (x ∷ s) k = refl

-- A text passes the domain test exactly if it consists of labels with a dot between each two, in
-- 253 characters at most, each label of 1 to 63 lower-case letters, digits and hyphens with no
-- hyphen first or last.
pub is_canonical_domain_iff :
    (domain : List ℕ) → (is_canonical_domain domain ≡ true) ↔ IsDomain domain
is_canonical_domain_iff domain = (IsDomain-of_test domain, back)
  where
    back : IsDomain domain → is_canonical_domain domain ≡ true
    back k = go k.labels k.some k.are_labels k.layout
      where
        go :
            (ls : List (List ℕ))
            → 1 ≤ length ls
            → All IsLabel ls
            → domain ≡ dotted ls
            → is_canonical_domain domain ≡ true
        go [] some are layout = absurd (omega arith)
        go (l ∷ ls) some are layout =
            rw layout (test_of_labels l ls are (omega (arith, ap length layout, k.few)))
