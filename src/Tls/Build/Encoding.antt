-- ===== src/Tls/Build/Encoding.antt =====
-- The encoders of src/connectcoin_p2c_tools/tls13.py on what fits, and the wire formats.
use connectcoin_p2c_tools.Common.{
  ℕ, ◌+◌, ◌*◌, ◌≤◌, ◌<◌, ◌≡◌, refl, List, [], ◌∷◌, ◌++◌, append_assoc, arith, lt→ltb, length, All,
  length-append, Bytes, be_bytes,
}
use connectcoin_p2c_tools.Common.Ints.{to_bytes_big, single_byte}
use connectcoin_p2c_tools.Common.Outcome.{ok, bind_ok}
use connectcoin_p2c_tools.Protocol.Format.{
  Number, Vector, Handshake, NumberList, OfferList, ExtensionList,
}
use connectcoin_p2c_tools.Protocol.Extensions.{Extensions}
use connectcoin_p2c_tools.Tls.Build.{u16_bytes, extension, handshake, join_u16, sized}

Number-u16 : (v : ℕ) → v < 65536 → Number 2 v (be_bytes 2 v)
Number-u16 v h = (refl, omega arith)

Number-u24 : (v : ℕ) → v < 16777216 → Number 3 v (be_bytes 3 v)
Number-u24 v h = (refl, omega arith)

pub u16_bytes-ok : (v : ℕ) → v < 65536 → u16_bytes v ≡ ok (be_bytes 2 v)
unfolding u16_bytes to_bytes_big
u16_bytes-ok v h = rw (lt→ltb v 65536 h) refl

pub single_byte-ok : (v : ℕ) → v < 256 → single_byte v ≡ ok (v ∷ [])
unfolding single_byte
single_byte-ok v h = rw (lt→ltb v 256 h) refl

-- A content behind its length in two bytes.
abbrev pub vector_16 : Bytes → Bytes
vector_16 content = be_bytes 2 (length content) ++ content

pub Vector-vector_16 :
    (content : Bytes) → length content < 65536 → Vector 2 content (vector_16 content)
Vector-vector_16 content h = (be_bytes 2 (length content), refl, Number-u16 (length content) h)

pub sized-ok : (content : Bytes) → length content < 65536 → sized content ≡ ok (vector_16 content)
unfolding sized
sized-ok content h = bind_ok _ (u16_bytes-ok (length content) h) refl

abbrev pub extension_bytes : ℕ → Bytes → Bytes
extension_bytes kind content = be_bytes 2 kind ++ vector_16 content

pub extension-ok :
    (kind : ℕ) (content : Bytes)
    → kind < 65536
    → length content < 65536
    → extension kind content ≡ ok (extension_bytes kind content)
unfolding extension
extension-ok kind content h k =
    bind_ok _ (u16_bytes-ok kind h) (bind_ok _ (u16_bytes-ok (length content) k) refl)

abbrev pub handshake_bytes : ℕ → Bytes → Bytes
handshake_bytes kind body = kind ∷ (be_bytes 3 (length body) ++ body)

pub handshake-ok :
    (kind : ℕ) (body : Bytes)
    → kind < 256
    → length body < 16777216
    → handshake kind body ≡ ok (handshake_bytes kind body)
unfolding handshake to_bytes_big
handshake-ok kind body h k =
    bind_ok _ (single_byte-ok kind h) (rw (lt→ltb (length body) 16777216 k) refl)

pub Handshake-handshake_bytes :
    (kind : ℕ) (body : Bytes)
    → length body < 16777216
    → Handshake kind body (handshake_bytes kind body)
Handshake-handshake_bytes kind body h =
    (be_bytes 3 (length body) ++ body, refl, (be_bytes 3 (length body), refl, Number-u24 _ h))

abbrev pub FitsU16 : ℕ → Type 0
FitsU16 v = v < 65536

abbrev pub join_bytes : List ℕ → Bytes
join_bytes [] = []
join_bytes (v ∷ vs) = be_bytes 2 v ++ join_bytes vs

pub join_u16-ok : (vs : List ℕ) → All FitsU16 vs → join_u16 vs ≡ ok (join_bytes vs)
unfolding join_u16
join_u16-ok [] h = refl
join_u16-ok (v ∷ vs) h = bind_ok _ (u16_bytes-ok v h.0) (bind_ok _ (join_u16-ok vs h.1) refl)

pub length-join_bytes : (vs : List ℕ) → length (join_bytes vs) ≡ 2 * length vs
length-join_bytes [] = refl
length-join_bytes (v ∷ vs) = omega (arith, length-join_bytes vs)

NumberList-join_bytes : (vs : List ℕ) → All FitsU16 vs → NumberList vs (join_bytes vs)
NumberList-join_bytes [] h = refl
NumberList-join_bytes (v ∷ vs) h =
    (be_bytes 2 v, join_bytes vs, refl, Number-u16 v h.0, NumberList-join_bytes vs h.1)

-- A list of schemes, not empty and short, is an offer.
pub OfferList-join_bytes :
    (vs : List ℕ)
    → All FitsU16 vs
    → 1 ≤ length vs
    → length vs < 32768
    → OfferList 2 vs (vector_16 (join_bytes vs))
OfferList-join_bytes vs h some few = (
  join_bytes vs,
  Vector-vector_16 (join_bytes vs) (omega (arith, length-join_bytes vs)),
  NumberList-join_bytes vs h,
  omega (arith, length-join_bytes vs),
)

abbrev pub FitExtensions : Extensions → Type 0
FitExtensions [] = Unit {0}
FitExtensions ((k, v) ∷ d) = (k < 65536) × (length v < 65536) × FitExtensions d

abbrev pub list_bytes : Extensions → Bytes
list_bytes [] = []
list_bytes ((k, v) ∷ d) = extension_bytes k v ++ list_bytes d

pub ExtensionList-list_bytes : (d : Extensions) → FitExtensions d → ExtensionList d (list_bytes d)
ExtensionList-list_bytes [] h = refl
ExtensionList-list_bytes ((k, v) ∷ d) h = (
  be_bytes 2 k,
  vector_16 v,
  list_bytes d,
  append_assoc (be_bytes 2 k) (vector_16 v) (list_bytes d),
  Number-u16 k h.0,
  Vector-vector_16 v h.1,
  ExtensionList-list_bytes d h.2,
)

abbrev pub list_size : Extensions → ℕ
list_size [] = 0
list_size ((k, v) ∷ d) = 4 + length v + list_size d

pub length-list_bytes : (d : Extensions) → length (list_bytes d) ≡ list_size d
length-list_bytes [] = refl
length-list_bytes ((k, v) ∷ d) =
    omega (arith, length-append (extension_bytes k v) (list_bytes d), length-list_bytes d)
