-- ===== src/Protocol/Reader.antt =====
-- `_Reader` of src/connectcoin_p2c_tools/protocol.py: a position in a byte string. A method that
-- moves the position is a `Reading`, a function from the reader to its result and the reader after.
pub mod Laws
use connectcoin_p2c_tools.Common.{
  ℕ, zero, suc, ◌+◌, ◌-◌, ◌<◌, ltb, ◌==◌, if◌then◌else◌, Bool, true, false, List, [], ◌∷◌, ◌++◌,
  length, take, drop, Bytes, from_be,
}
use connectcoin_p2c_tools.Common.Outcome
use connectcoin_p2c_tools.Common.Outcome.{Result, Exception, ok, raises, out_of_fuel, proof_format}

pub record Reader : Type 0 where
  pub bytes : Bytes
  pub position : ℕ

abbrev pub Reading {ℓ} : Type ℓ → Type ℓ
Reading A = Reader → Result (A × Reader)

-- `_Reader(data)`
abbrev pub reader_of : Bytes → Reader
reader_of b = record { bytes = b; position = 0 }

abbrev pub pure {ℓ} : {A : Type ℓ} → A → Reading A
pure a r = ok (a, r)

module _ {ℓ κ} {A : Type ℓ} {B : Type κ} where
  infixl 5 ◌>>=◌
  unfoldable pub ◌>>=◌ : Reading A → (A → Reading B) → Reading B
  ◌>>=◌ m f r = Outcome.◌>>=◌ (m r) (λ (a, r'). f a r')

-- `if not test: raise ProofFormatError(...)`
unfoldable pub require : Bool → Reading (Unit {0})
require test r = if test then ok (tt, r) else raises proof_format

infixl 5 ◌>>◌
abbrev pub ◌>>◌ {ℓ} : {B : Type ℓ} → Reading (Unit {0}) → Reading B → Reading B
m >> k = m >>= λ _. k

-- A call that has a reader of its own and leaves this one where it is.
unfoldable pub lift {ℓ} : {A : Type ℓ} → Result A → Reading A
lift m r = Outcome.◌>>=◌ m (λ a. ok (a, r))

-- The result of a reading, without the reader.
unfoldable pub run {ℓ} : {A : Type ℓ} → Reading A → Bytes → Result A
run m b = Outcome.◌>>=◌ (m (reader_of b)) (λ (a, r). ok a)

-- `remaining`
unfoldable pub remaining : Reading ℕ
remaining r = ok (length r.bytes - r.position, r)

-- `empty`
unfoldable pub empty : Reading Bool
empty r = ok (r.position == length r.bytes, r)

-- `data[i : j]`
abbrev pub slice : Bytes → ℕ → ℕ → Bytes
slice b i j = take (j - i) (drop i b)

-- `size` is never negative: every caller has read it as an unsigned number, or it is a literal.
unfoldable pub read : ℕ → Reading Bytes
read size r =
    if ltb (length r.bytes - r.position) size
    then raises proof_format
    else ok
        (slice r.bytes r.position (r.position + size), record r { position = r.position + size })

-- `self.read(1, what)[0]`
abbrev first_byte : Bytes → Result ℕ
first_byte [] = raises Exception.index_error
first_byte (b ∷ bs) = ok b

unfoldable pub u8 : Reading ℕ
u8 = do b ← read 1; lift (first_byte b)

unfoldable pub u16 : Reading ℕ
u16 = do b ← read 2; pure (from_be b)

unfoldable pub u24 : Reading ℕ
u24 = do b ← read 3; pure (from_be b)

-- The reader that has read `before` and is in front of `after`.
abbrev pub at : Bytes → Bytes → Reader
at before after = record { bytes = before ++ after; position = length before }

-- The bytes that a reading took, `reader._data[start : reader.position]`, before its result.
unfoldable pub captured {ℓ} : {A : Type ℓ} → Reading A → Reading (Bytes × A)
captured m r = Outcome.◌>>=◌ (m r) (λ (a, r'). ok ((slice r'.bytes r.position r'.position, a), r'))

-- A loop that has no rounds left; no run of the program comes here.
abbrev pub exhausted {ℓ} : {A : Type ℓ} → Reading A
exhausted r = out_of_fuel
