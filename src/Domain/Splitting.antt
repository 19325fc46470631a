-- ===== src/Domain/Splitting.antt =====
-- Splitting at dots (src/connectcoin_p2c_tools/domain.py), and joining with dots.
use connectcoin_p2c_tools.Common.{
  ℕ, ◌≡◌, inl, inr, refl, sym, ap, ◌∙◌, false, List, [], ◌∷◌, ◌++◌, All, ◌==◌, ==→eq, Bool-cases,
}
use connectcoin_p2c_tools.Domain.{split}

-- The labels with a dot between each two.
abbrev pub dotted : List (List ℕ) → List ℕ
dotted [] = []
dotted (l ∷ []) = l
dotted (l ∷ m ∷ ls) = l ++ (b'.' ∷ dotted (m ∷ ls))

pub split_shape : (s : List ℕ) → (h : List ℕ) × (t : List (List ℕ)) × (split b'.' s ≡ h ∷ t)
unfolding split
split_shape [] = ([], [], refl)
split_shape (c ∷ s) =
    let (h, t, e) = split_shape s in
    elim (Bool-cases (c == b'.')) [
      | inl d ↦ ([], h ∷ t, rw (d, e) refl)
      | inr d ↦ (c ∷ h, t, rw (d, e) refl)
    ]

dotted-cons_head :
    (c : ℕ) (h : List ℕ) (t : List (List ℕ)) → dotted ((c ∷ h) ∷ t) ≡ c ∷ dotted (h ∷ t)
dotted-cons_head c h [] = refl
dotted-cons_head c h (m ∷ t) = refl

pub dotted-split : (s : List ℕ) → dotted (split b'.' s) ≡ s
unfolding split
dotted-split [] = refl
dotted-split (c ∷ s) =
    let (h, t, e) = split_shape s in
    let again : dotted (h ∷ t) ≡ s = ap dotted (sym e) ∙ dotted-split s in
    elim (Bool-cases (c == b'.')) [
      | inl d ↦ rw (d, e, again, ==→eq _ _ d) refl
      | inr d ↦ rw (d, e, dotted-cons_head c h t, again) refl
    ]

abbrev pub NoDot : List ℕ → Type 0
NoDot l = All (λ (c : ℕ). (c == b'.') ≡ false) l

split-piece : (l : List ℕ) → NoDot l → split b'.' l ≡ l ∷ []
unfolding split
split-piece [] h = refl
split-piece (c ∷ l) (d, h) = rw (d, split-piece l h) refl

split-append : (l s : List ℕ) → NoDot l → split b'.' (l ++ (b'.' ∷ s)) ≡ l ∷ split b'.' s
unfolding split
split-append [] s h = refl
split-append (c ∷ l) s (d, h) = rw (d, split-append l s h) refl

pub split-dotted :
    (l : List ℕ) (ls : List (List ℕ)) → All NoDot (l ∷ ls) → split b'.' (dotted (l ∷ ls)) ≡ l ∷ ls
split-dotted l [] (h, k) = split-piece l h
split-dotted l (m ∷ ls) (h, k) =
    split-append l (dotted (m ∷ ls)) h ∙ ap (λ (t : List (List ℕ)). l ∷ t) (split-dotted m ls k)
