-- ===== src/Envelope/Read.antt =====
-- `ConnectionProof.read` of src/connectcoin_p2c_tools/envelope.py, and what it reads after a write.
use connectcoin_p2c_tools.Common.{
  ◌⊎◌, if◌then◌else◌, inl, inr, Option, none, some, true, false, Bool, Bytes,
}
use connectcoin_p2c_tools.Common.Outcome.{
  Result, Exception, os_error, ok, raises, proof_format, ◌>>=◌,
}
use connectcoin_p2c_tools.Common.Values.{Value}
use connectcoin_p2c_tools.Envelope.{ConnectionProof, from_dict}

-- `loads` is the decoding of UTF-8 and `json.loads`: the value, or what one of them raises. Reading
-- the file raises OSError where there is none to read.
abbrev pub json_of : (Bytes → Exception ⊎ Value) → Option Bytes → Exception ⊎ Value
json_of loads none = inl os_error
json_of loads (some content) = loads content

-- The except clause; a ValueError of another kind and RecursionError are not caught.
abbrev pub is_read_error : Exception → Bool
is_read_error Exception.os_error = true
is_read_error Exception.unicode_error = true
is_read_error Exception.json_decode_error = true
is_read_error _ = false

abbrev pub read_value : Exception ⊎ Value → Result Value
read_value (inl e) = if is_read_error e then raises proof_format else raises e
read_value (inr value) = ok value

module _ (sha256 : Bytes → Bytes) (loads : Bytes → Exception ⊎ Value) where
  -- `file` is the content at the path, none where it cannot be read.
  unfoldable pub read : Option Bytes → Result ConnectionProof
  read file = read_value (json_of loads file) >>= λ value. from_dict sha256 value
