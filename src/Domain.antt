-- ===== src/Domain.antt =====
-- src/connectcoin_p2c_tools/domain.py. A text is the list of its code points.
pub mod Splitting
pub mod Labels
use connectcoin_p2c_tools.Common.{
  ℕ, Bool, true, false, ◌&&◌, ◌||◌, not, List, [], ◌∷◌, ltb, leb, ◌==◌, if◌then◌else◌, length,
  is_empty,
}

-- `domain.encode("ascii")` succeeds.
unfoldable pub is_ascii : List ℕ → Bool
is_ascii [] = true
is_ascii (c ∷ s) = ltb c 128 && is_ascii s

-- `s.startswith(c)` and `s.endswith(c)` for one byte.
unfoldable pub starts_with : ℕ → List ℕ → Bool
starts_with c [] = false
starts_with c (x ∷ s) = x == c

unfoldable pub ends_with : ℕ → List ℕ → Bool
ends_with c [] = false
ends_with c (x ∷ []) = x == c
ends_with c (x ∷ y ∷ s) = ends_with c (y ∷ s)

abbrev cons_head : ℕ → List (List ℕ) → List (List ℕ)
cons_head c [] = (c ∷ []) ∷ []
cons_head c (piece ∷ pieces) = (c ∷ piece) ∷ pieces

-- `s.split(b".")`
unfoldable pub split : ℕ → List ℕ → List (List ℕ)
split sep [] = [] ∷ []
split sep (c ∷ s) = let pieces = split sep s in if c == sep then [] ∷ pieces else cons_head c pieces

-- `97 <= value <= 122 or 48 <= value <= 57 or value == 45`
abbrev pub is_label_char : ℕ → Bool
is_label_char c = (leb 97 c && leb c 122) || ((leb 48 c && leb c 57) || c == 45)

unfoldable pub all_label_chars : List ℕ → Bool
all_label_chars [] = true
all_label_chars (c ∷ s) = is_label_char c && all_label_chars s

-- The body of the loop, which returns early from `is_canonical_domain`.
unfoldable pub is_label : List ℕ → Bool
unfolding starts_with ends_with all_label_chars
is_label label =
    if not (leb 1 (length label) && leb (length label) 63)
      || (starts_with b'-' label || ends_with b'-' label)
    then false
    else all_label_chars label

unfoldable pub all_labels : List (List ℕ) → Bool
all_labels [] = true
all_labels (label ∷ labels) = if is_label label then all_labels labels else false

unfoldable pub is_canonical_domain : List ℕ → Bool
unfolding is_ascii ends_with split all_labels
is_canonical_domain domain =
    if not (is_ascii domain)
    then false
    else if is_empty domain || (ltb 253 (length domain) || ends_with b'.' domain)
    then false
    else all_labels (split b'.' domain)
