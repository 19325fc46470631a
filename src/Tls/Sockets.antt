-- ===== src/Tls/Sockets.antt =====
-- `_recv_exact` and `_recv_record` of src/connectcoin_p2c_tools/tls13.py on what the socket gives.
pub mod Chunks
use connectcoin_p2c_tools.Common.{
  ℕ, ◌+◌, ◌-◌, ◌*◌, Bool, not, List, [], ◌∷◌, ◌++◌, ltb, leb, if◌then◌else◌, length, take, drop,
  Bytes, from_be,
}
use connectcoin_p2c_tools.Common.Outcome.{
  Result, ok, raises, require, tls_generation, os_error, ◌>>=◌, ◌>>◌,
}
use connectcoin_p2c_tools.Protocol.Reader.{slice}
use connectcoin_p2c_tools.Tls.Buffer.{TlsRecord, message_type}

-- `MAX_TLS_CIPHERTEXT`
abbrev pub max_tls_ciphertext : ℕ
max_tls_ciphertext = 16384 + 256

-- What a round of the loop finds: bytes in the socket, none of them when the peer has closed the
-- connection; that the deadline is over, so that _remaining_timeout raises; or an OSError of recv.
pub data Arrival : Type 0 where
  chunk : Bytes → Arrival
  late : Arrival
  fails : Arrival

-- The bytes of `result` are there already. `recv` takes what it finds, and at most what is asked.
-- The arrivals end when the peer closes the connection.
unfoldable pub recv_exact : ℕ → Bytes → List Arrival → Result (Bytes × List Arrival)
recv_exact size result [] =
    if ltb (length result) size then raises tls_generation else ok (result, [])
recv_exact size result (late ∷ rest) =
    if ltb (length result) size then raises tls_generation else ok (result, late ∷ rest)
recv_exact size result (fails ∷ rest) =
    if ltb (length result) size then raises os_error else ok (result, fails ∷ rest)
recv_exact size result (chunk [] ∷ rest) =
    if ltb (length result) size then raises tls_generation else ok (result, chunk [] ∷ rest)
recv_exact size result (chunk (b ∷ bs) ∷ rest) =
    let need = size - length result in
    let next = recv_exact size (result ++ (b ∷ bs)) rest in
    if not (ltb (length result) size)
    then ok (result, chunk (b ∷ bs) ∷ rest)
    else if ltb need (length (b ∷ bs))
    then ok (result ++ take need (b ∷ bs), chunk (drop need (b ∷ bs)) ∷ rest)
    else next

unfoldable pub recv_record : List Arrival → Result (TlsRecord × List Arrival)
recv_record arrivals = recv_exact 5 [] arrivals >>= λ (header, after).
    message_type header >>= λ content_type.
    let size = from_be (slice header 3 5) in
    require (not (ltb (from_be (slice header 1 3)) 0x0300)) tls_generation
    >> (require (not (ltb max_tls_ciphertext size)) tls_generation
        >> (recv_exact size [] after >>= λ (fragment, left).
            ok
              (record { content_type = content_type; header = header; fragment = fragment }, left)))
