-- ===== src/Common/Values.antt =====
-- Python values as `json.loads` returns them. A float is known only to be none of the other kinds.
-- A text is the list of its code points, and a dict the list of its items, one for each key.
use connectcoin_p2c_tools.Common.Tests.{leb}
use Prim.Native.Nat.{ℕ}
use mathlib.Core.Bool.{Bool, false, ◌&&◌}
use mathlib.Core.List.{List}

-- `negsuc n` is -(n + 1).
pub data ℤ : Type 0 where
  pos : ℕ → ℤ
  negsuc : ℕ → ℤ

-- `lo <= i <= hi`
abbrev pub in_range : ℕ → ℤ → ℕ → Bool
in_range lo (pos n) hi = leb lo n && leb n hi
in_range lo (negsuc n) hi = false

mutual
  pub data Value : Type 0 where
    null : Value
    bool : Bool → Value
    int : ℤ → Value
    float : ℕ → Value
    text : List ℕ → Value
    bytes : List ℕ → Value
    array : Items → Value
    dict : Fields → Value

  pub data Items : Type 0 where
    no_items : Items
    item : Value → Items → Items

  pub data Fields : Type 0 where
    no_fields : Fields
    field : List ℕ → Value → Fields → Fields
