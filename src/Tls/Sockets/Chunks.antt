-- ===== src/Tls/Sockets/Chunks.antt =====
-- However the bytes of the peer are cut into chunks, the same records are received
-- (src/connectcoin_p2c_tools/tls13.py, `_recv_exact` and `_recv_record`).
use connectcoin_p2c_tools.Common.{
  ℕ, zero, suc, ◌-◌, ◌≤◌, ◌<◌, ◌≡◌, refl, sym, ap, ◌∙◌, inl, inr, false, List, [], ◌∷◌, ◌++◌, arith,
  ltb, lt→ltb, le→not_ltb, length, length-append, length-take, take, drop, take-append-drop,
  append_assoc, Bytes, be_bytes, from_be, Bool-cases,
}
use connectcoin_p2c_tools.Common.Lists.{same_parts}
use connectcoin_p2c_tools.Common.Outcome.{ok, bind_ok}
use connectcoin_p2c_tools.Protocol.Reader.{slice}
use connectcoin_p2c_tools.Tls.Build.{record_bytes}
use connectcoin_p2c_tools.Tls.Build.Encoding.{u16_bytes-ok, single_byte-ok}
use connectcoin_p2c_tools.Tls.Sockets.{
  Arrival, chunk, late, fails, recv_exact, recv_record, max_tls_ciphertext,
}

-- Chunks that hold something.
pub data AreChunks : List Arrival → Type 0 where
  no_chunks : AreChunks []
  a_chunk :
      {b : ℕ} {bs : Bytes} {rest : List Arrival}
      → AreChunks rest
      → AreChunks (chunk (b ∷ bs) ∷ rest)

abbrev pub sent : List Arrival → Bytes
sent [] = []
sent (chunk bs ∷ rest) = bs ++ sent rest
sent (late ∷ rest) = sent rest
sent (fails ∷ rest) = sent rest

enough :
    (size : ℕ) (result : Bytes) (arrivals : List Arrival)
    → ltb (length result) size ≡ false
    → recv_exact size result arrivals ≡ ok (result, arrivals)
unfolding recv_exact
enough size result [] h = rw h refl
enough size result (late ∷ rest) h = rw h refl
enough size result (fails ∷ rest) h = rw h refl
enough size result (chunk [] ∷ rest) h = rw h refl
enough size result (chunk (b ∷ bs) ∷ rest) h = rw h refl

cut_chunk :
    (n : ℕ) (bs : Bytes) (rest : List Arrival)
    → n < length bs
    → AreChunks rest
    → AreChunks (chunk (drop n bs) ∷ rest)
cut_chunk n [] rest h k = absurd (omega arith)
cut_chunk zero (b ∷ bs) rest h k = a_chunk k
cut_chunk (suc n) (b ∷ bs) rest h k = cut_chunk n bs rest (omega arith) k

abbrev Receives : ℕ → Bytes → List Arrival → Bytes → Bytes → Type 0
Receives size result arrivals wanted left =
    (after : List Arrival) × (recv_exact size result arrivals ≡ ok (wanted, after))
    × (sent after ≡ left)
    × AreChunks after

-- The bytes are there already.
received :
    (size : ℕ) (result : Bytes) (arrivals : List Arrival) (wanted left : Bytes)
    → AreChunks arrivals
    → result ++ sent arrivals ≡ wanted ++ left
    → length result ≡ size
    → length wanted ≡ size
    → Receives size result arrivals wanted left
received size result arrivals wanted left k e full h =
    let (same, rest) = same_parts result wanted (sent arrivals) left (omega (arith, full, h)) e in
    let none : ltb (length result) size ≡ false = ground arith in
    (
      arrivals,
      enough size result arrivals none ∙ ap (λ (x : Bytes). ok (x, arrivals)) same,
      rest,
      k,
    )

-- A chunk is cut where it holds more than is asked for.
cut :
    (size : ℕ) (result : Bytes) (b : ℕ) (bs : Bytes) (rest : List Arrival) (wanted left : Bytes)
    → AreChunks rest
    → result ++ ((b ∷ bs) ++ sent rest) ≡ wanted ++ left
    → length result < size
    → length wanted ≡ size
    → size - length result < length (b ∷ bs)
    → Receives size result (chunk (b ∷ bs) ∷ rest) wanted left
unfolding recv_exact
cut size result b bs rest wanted left k e short h long =
    let need = size - length result in
    let first = take need (b ∷ bs) in
    let whole : first ++ drop need (b ∷ bs) ≡ b ∷ bs = take-append-drop need (b ∷ bs) in
    let size_is : length (result ++ first) ≡ length wanted =
      omega (arith, h, length-append result first, length-take need (b ∷ bs) (omega arith)) in
    let parts : (result ++ first) ++ (drop need (b ∷ bs) ++ sent rest) ≡ wanted ++ left =
      append_assoc result first (drop need (b ∷ bs) ++ sent rest)
      ∙ ap (λ (x : Bytes). result ++ x)
          (sym (append_assoc first (drop need (b ∷ bs)) (sent rest))
            ∙ ap (λ (x : Bytes). x ++ sent rest) whole)
      ∙ e in
    let (same, others) = same_parts (result ++ first) wanted _ left size_is parts in
    (
      chunk (drop need (b ∷ bs)) ∷ rest,
      rw (lt→ltb (length result) size short, lt→ltb need (length (b ∷ bs)) long)
          (ap (λ (x : Bytes). ok (x, chunk (drop need (b ∷ bs)) ∷ rest)) same),
      others,
      cut_chunk need (b ∷ bs) rest long k,
    )

recv_exact-sent :
    (size : ℕ) (result : Bytes) (arrivals : List Arrival) (wanted left : Bytes)
    → AreChunks arrivals
    → result ++ sent arrivals ≡ wanted ++ left
    → length result ≤ size
    → length wanted ≡ size
    → Receives size result arrivals wanted left
unfolding recv_exact
recv_exact-sent size result [] wanted left no_chunks e short h =
    received size result [] wanted left no_chunks e
      (omega (arith, short, h, length-append result [], length-append wanted left, ap length e)) h
recv_exact-sent size result (chunk (b ∷ bs) ∷ rest) wanted left (a_chunk k) e short h =
    elim (Bool-cases (ltb (length result) size)) [
      | inr full ↦
          received size result (chunk (b ∷ bs) ∷ rest) wanted left (a_chunk k) e (ground arith) h
      | inl more ↦ elim (Bool-cases (ltb (size - length result) (length (b ∷ bs)))) [
        | inl long ↦ cut size result b bs rest wanted left k e (ground arith) h (ground arith)
        | inr all ↦
            let fits : length (result ++ (b ∷ bs)) ≤ size =
              rw (length-append result (b ∷ bs)) (ground arith) in
            let (after, run, others, kept) =
              recv_exact-sent size (result ++ (b ∷ bs)) rest wanted left k
                (append_assoc result (b ∷ bs) (sent rest) ∙ e) fits h in
            (after, rw (more, all) run, others, kept)
      ]
    ]
recv_exact-sent size result (chunk [] ∷ rest) wanted left k e short h = elim k [ ]
recv_exact-sent size result (late ∷ rest) wanted left k e short h = elim k [ ]
recv_exact-sent size result (fails ∷ rest) wanted left k e short h = elim k [ ]

abbrev pub record_header : ℕ → ℕ → ℕ → Bytes
record_header content_type version size = content_type ∷ (be_bytes 2 version ++ be_bytes 2 size)

pub record_bytes-ok :
    (content_type version : ℕ) (body : Bytes)
    → content_type < 256
    → version < 65536
    → length body < 65536
    → record_bytes content_type body version
      ≡ ok (content_type ∷ (be_bytes 2 version ++ (be_bytes 2 (length body) ++ body)))
unfolding record_bytes
record_bytes-ok content_type version body h k l =
    bind_ok _ (single_byte-ok content_type h)
      (bind_ok _ (u16_bytes-ok version k) (bind_ok _ (u16_bytes-ok (length body) l) refl))

two_bytes : (v : ℕ) → v < 65536 → from_be (be_bytes 2 v) ≡ v
two_bytes v h = omega arith

-- A record that the encoder makes, of a version from 0x0300 on and at most 16640 bytes of content,
-- is received as its type, its header and its content however its bytes are cut into chunks that
-- are not empty, and what was sent behind it is left.
pub recv_record-record_bytes :
    (content_type version : ℕ) (body left : Bytes) (arrivals : List Arrival) (encoded : Bytes)
    → content_type < 256
    → 0x0300 ≤ version
    → version < 65536
    → length body ≤ max_tls_ciphertext
    → record_bytes content_type body version ≡ ok encoded
    → AreChunks arrivals
    → sent arrivals ≡ encoded ++ left
    → (after : List Arrival) × (recv_record arrivals
        ≡ ok (
          record {
            content_type = content_type;
            header = record_header content_type version (length body);
            fragment = body;
          },
          after,
        ))
      × (sent after ≡ left)
      × AreChunks after
unfolding recv_record
recv_record-record_bytes content_type version body left arrivals encoded byte new fits small run k
      e =
    let header = record_header content_type version (length body) in
    let form : ok (header ++ body) ≡ ok encoded =
      sym (record_bytes-ok content_type version body byte fits (omega (arith, small))) ∙ run in
    let whole : header ++ body ≡ encoded = cc in
    let parts : sent arrivals ≡ header ++ (body ++ left) =
      e ∙ ap (λ (x : Bytes). x ++ left) (sym whole) in
    let (rest, first, rest_is, kept) =
      recv_exact-sent 5 [] arrivals header (body ++ left) k parts (omega arith) refl in
    let (after, second, after_is, last) =
      recv_exact-sent (length body) [] rest body left kept rest_is (omega arith) refl in
    let size : from_be (slice header 3 5) ≡ length body =
      two_bytes (length body) (omega (arith, small)) in
    let version_is : from_be (slice header 1 3) ≡ version = two_bytes version fits in
    (
      after,
      bind_ok _ first (
          rw
            (
              version_is,
              size,
              le→not_ltb version 0x0300 new,
              le→not_ltb max_tls_ciphertext (length body) small,
            )
            (bind_ok _ second refl)),
      after_is,
      last,
    )
