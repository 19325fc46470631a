-- ===== src/Common/Ints.antt =====
-- `int.to_bytes` and `int.from_bytes`, big and little endian, and bytes as numbers below 256.
use Prim.Native.Nat.{ℕ, zero, suc, ◌+◌, ◌*◌, ◌/◌, ◌%◌, ◌^◌, ◌<◌}
use mathlib.Core.Path.{◌≡◌, refl}
use mathlib.Core.List.{List, [], ◌∷◌, ◌++◌}
use native.Mathlib.Omega.{arith}
use connectcoin_p2c_tools.Common.Tests.{ltb, if◌then◌else◌}
use connectcoin_p2c_tools.Common.Lists.{length, All, length-append}
use connectcoin_p2c_tools.Common.Outcome.{Result, ok, raises, overflow_error, value_error}

abbrev pub Bytes : Type 0
Bytes = List ℕ

abbrev pub IsByte : ℕ → Type 0
IsByte b = b < 256

abbrev pub AreBytes : Bytes → Type 0
AreBytes = All IsByte

-- The bytes of `v`, lowest first, in `n` places.
abbrev pub le_bytes : ℕ → ℕ → Bytes
le_bytes zero v = []
le_bytes (suc n) v = v % 256 ∷ le_bytes n (v / 256)

-- The bytes of `v`, highest first, in `n` places.
abbrev pub be_bytes : ℕ → ℕ → Bytes
be_bytes zero v = []
be_bytes (suc n) v = be_bytes n (v / 256) ++ (v % 256 ∷ [])

-- `int.from_bytes(b, "little")`
abbrev pub from_le : Bytes → ℕ
from_le [] = 0
from_le (b ∷ bs) = b + 256 * from_le bs

-- `int.from_bytes(b, "big")`
abbrev pub from_be_loop : ℕ → Bytes → ℕ
from_be_loop acc [] = acc
from_be_loop acc (b ∷ bs) = from_be_loop (acc * 256 + b) bs

abbrev pub from_be : Bytes → ℕ
from_be bs = from_be_loop 0 bs

-- `v.to_bytes(n, "big")`
unfoldable pub to_bytes_big : ℕ → ℕ → Result Bytes
to_bytes_big n v = if ltb v (256 ^ n) then ok (be_bytes n v) else raises overflow_error

-- `v.to_bytes(n, "little")`
unfoldable pub to_bytes_little : ℕ → ℕ → Result Bytes
to_bytes_little n v = if ltb v (256 ^ n) then ok (le_bytes n v) else raises overflow_error

-- `bytes([v])`
unfoldable pub single_byte : ℕ → Result Bytes
single_byte v = if ltb v 256 then ok (v ∷ []) else raises value_error

pub length-be_bytes : (n v : ℕ) → length (be_bytes n v) ≡ n
length-be_bytes zero v = refl
length-be_bytes (suc n) v =
    omega (arith, length-append (be_bytes n (v / 256)) (v % 256 ∷ []), length-be_bytes n (v / 256))
