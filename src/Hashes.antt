-- ===== src/Hashes.antt =====
-- src/connectcoin_p2c_tools/hashes.py. Text is its code points and bytes are numbers below 256;
-- `hashlib.sha256` is a parameter.
pub mod Tagged
pub mod Hex
pub mod Display
pub mod Target
use Prim.Native.Char.{code}
use Prim.Native.String.{String}
use mathlib.Core.List.{reverse, flatten}
use connectcoin_p2c_tools.Common.{
  ℕ, zero, suc, ◌+◌, ◌-◌, ◌*◌, ◌/◌, ◌%◌, Bool, true, false, ◌&&◌, ◌||◌, List, [], ◌∷◌, ◌++◌, map,
  Option, none, some, ltb, leb, ◌==◌, if◌then◌else◌, length, bytes_eq, Bytes, from_le,
}
use connectcoin_p2c_tools.Common.Ints.{to_bytes_little}
use connectcoin_p2c_tools.Common.Outcome.{Result, ok, raises, require, value_error, ◌>>=◌, ◌>>◌}
use connectcoin_p2c_tools.Common.Values.{Value, pos, int, in_range}

abbrev pub codes : String → List ℕ
codes String.[] = []
codes (String.◌∷◌ c s) = code c ∷ codes s

abbrev pub claim_tag : Bytes
claim_tag = codes "ConnectCoin/P2C/claim/v1"

abbrev pub work_tag : Bytes
work_tag = codes "ConnectCoin/P2C/work/v2"

-- `character in "0123456789abcdef"`
abbrev pub is_hex_digit : ℕ → Bool
is_hex_digit c = (leb b'0' c && leb c b'9') || (leb b'a' c && leb c b'f')

-- `str.lower` on ASCII letters. It leaves other letters alone, and the test that comes next in
-- every caller refuses those with the same exception.
abbrev pub lower_char : ℕ → ℕ
lower_char c = if leb b'A' c && leb c b'Z' then c + 32 else c

unfoldable pub all_hex_digits : List ℕ → Bool
all_hex_digits [] = true
all_hex_digits (c ∷ s) = is_hex_digit c && all_hex_digits s

abbrev pub digit_value : ℕ → Option ℕ
digit_value c =
    if leb b'0' c && leb c b'9'
    then some (c - 48)
    else if leb b'a' c && leb c b'f'
    then some (c - 87)
    else if leb b'A' c && leb c b'F'
    then some (c - 55)
    else none

abbrev hex_pair : Option ℕ → Option ℕ → Result Bytes → Result Bytes
hex_pair (some high) (some low) rest = do more ← rest; ok ((16 * high + low) ∷ more)
hex_pair _ _ rest = raises value_error

-- `bytes.fromhex` on text without white space, which its callers have refused.
unfoldable pub from_hex : List ℕ → Result Bytes
from_hex [] = ok []
from_hex (c ∷ []) = raises value_error
from_hex (c ∷ d ∷ s) = hex_pair (digit_value c) (digit_value d) (from_hex s)

abbrev pub hex_digit : ℕ → ℕ
hex_digit v = if ltb v 10 then v + 48 else v + 87

-- `bytes.hex`
unfoldable pub to_hex : Bytes → List ℕ
to_hex [] = []
to_hex (b ∷ bs) = hex_digit (b / 16) ∷ hex_digit (b % 16) ∷ to_hex bs

unfoldable pub display_hash_to_internal : List ℕ → Result Bytes
display_hash_to_internal value = do
  require (length value == 64) value_error
  require (bytes_eq value (map lower_char value)) value_error
  require (all_hex_digits value) value_error
  encoded ← from_hex value
  ok (reverse encoded)

unfoldable pub internal_hash_to_display : Bytes → Result (List ℕ)
internal_hash_to_display value = do
  require (length value == 32) value_error
  ok (to_hex (reverse value))

-- A bool is refused before its range is looked at.
abbrev pub uint32_of : Value → Result ℕ
uint32_of (int (pos n)) = if in_range 0 (pos n) 0xffffffff then ok n else raises value_error
uint32_of _ = raises value_error

-- `internal_txid + input_index.to_bytes(4, "little")`
unfoldable pub claim_message : List ℕ → Value → Result Bytes
claim_message txid input_index = do
  index ← uint32_of input_index
  internal_txid ← display_hash_to_internal txid
  encoded ← to_bytes_little 4 index
  ok (internal_txid ++ encoded)

unfoldable pub meets_work_target : Bytes → List ℕ → Result Bool
meets_work_target work_hash target = do
  require (length work_hash == 32) value_error
  target_internal ← display_hash_to_internal target
  ok (leb (from_le work_hash) (from_le target_internal))

module _ (sha256 : Bytes → Bytes) where
  unfoldable pub tagged_hash : Bytes → Bytes → Bytes
  tagged_hash tag message = let tag_hash = sha256 tag in sha256 (tag_hash ++ (tag_hash ++ message))

  unfoldable pub claim_challenge : List ℕ → Value → Result Bytes
  claim_challenge txid input_index = do
    message ← claim_message txid input_index
    ok (tagged_hash claim_tag message)

  -- `b"".join(messages)` is `flatten messages`.
  unfoldable pub connection_work_hash : List Bytes → Result Bytes
  connection_work_hash messages = do
    require (length messages == 4) value_error
    ok (tagged_hash work_tag (flatten messages))
