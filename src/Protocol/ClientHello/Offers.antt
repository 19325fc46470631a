-- ===== src/Protocol/ClientHello/Offers.antt =====
-- The lists that ClientHello offers (src/connectcoin_p2c_tools/protocol.py) and their formats.
use connectcoin_p2c_tools.Common.{
  ℕ, ◌%◌, ◌≤◌, ◌≡◌, refl, sym, ap, ◌∙◌, subst, true, ◌||◌, not, List, [], ◌∷◌, ◌++◌, append-nil,
  arith, ltb, ◌!=◌, length, Bytes, taken_whole,
}
use connectcoin_p2c_tools.Common.Outcome.{ok, proof_format, Ensures, Ensures-weaken}
use connectcoin_p2c_tools.Protocol.Reader.Laws.{
  ReadsEnd-bind, ReadsEnd-require, ReadsEnd-empty, ReadsEnd-pure, run-ReadsEnd,
}
use connectcoin_p2c_tools.Protocol.Reader.Laws.Numbers.{
  ReadsEnd-cast, Reads-u8_of, single_number, Reads-u16_of, Reads-read_of,
}
use connectcoin_p2c_tools.Protocol.Reader.Laws.Parsing.{
  Parses-bind, Parses-require, Parses-pure, Parses-empty, Parses-read_bind, lengths, Parses-u8,
  Parses-u16, Ensures-run,
}
use connectcoin_p2c_tools.Protocol.Format.{NumberList, OfferList}
use connectcoin_p2c_tools.Protocol.ClientHello.{
  u16_pairs, versions_body, offered_versions, signatures_body, offered_signatures,
}

pub even_pairs : (bs : Bytes) → length bs % 2 ≡ 0 → NumberList (u16_pairs bs) bs
unfolding u16_pairs
even_pairs [] h = refl
even_pairs (a ∷ []) h = absurd (omega arith)
even_pairs (a ∷ b ∷ bs) h = (a ∷ b ∷ [], bs, refl, (refl, refl), even_pairs bs (omega arith))

pub pairs_of_list : (ns : List ℕ) (bs : Bytes) → NumberList ns bs → u16_pairs bs ≡ ns
unfolding u16_pairs
pairs_of_list [] bs h = rw h
pairs_of_list (n ∷ ns) bs (a ∷ b ∷ [], more, e, (l, f), q) = rw (e, pairs_of_list ns more q, f) refl
pairs_of_list (n ∷ ns) bs ([], more, e, (l, f), q) = absurd (omega (arith, l))
pairs_of_list (n ∷ ns) bs (a ∷ [], more, e, (l, f), q) = absurd (omega (arith, l))
pairs_of_list (n ∷ ns) bs (a ∷ b ∷ c ∷ first, more, e, (l, f), q) = absurd (omega (arith, l))

pub even_list : (ns : List ℕ) (bs : Bytes) → NumberList ns bs → length bs % 2 ≡ 0
even_list [] bs h = omega (arith, ap length h)
even_list (n ∷ ns) bs (first, more, e, (l, f), q) =
    omega (lengths, ap length e, even_list ns more q)

pub size_ok : (n : ℕ) → not (ltb n 2 || n % 2 != 0) ≡ true → (2 ≤ n) × (n % 2 ≡ 0)
size_ok n h = ground arith

pub ok_size : (n : ℕ) → 2 ≤ n → n % 2 ≡ 0 → not (ltb n 2 || n % 2 != 0) ≡ true
ok_size n h e = ground arith

pub offered_signatures-Ensures :
    (bs : Bytes) → Ensures proof_format (λ ns. OfferList 2 ns bs) (offered_signatures bs)
unfolding offered_signatures signatures_body
offered_signatures-Ensures bs =
    Ensures-weaken
      (λ ns (used, left, e, (l, q)). subst (λ (x : Bytes). OfferList 2 ns x) (taken_whole e l) q)
      (Ensures-run {Q = λ used left ns. (left ≡ []) × OfferList 2 ns used} (
        Parses-bind _ (Parses-u16 bs) λ t left₁ n e₁ (lt, ft). Parses-require _ λ size.
          Parses-read_bind _ λ v left₂ e₂ lv. Parses-empty _ λ done end. Parses-require _ λ is_done.
            Parses-pure _ (
              end is_done,
              (
                v,
                (t, ap (λ (x : Bytes). t ++ x) (append-nil v), (lt, lv ∙ ft)),
                even_pairs v (rw lv (size_ok n size).1),
                rw lv (size_ok n size).0,
              ),
            )))

pub offered_signatures-ok :
    (ns : List ℕ) (bs : Bytes) → OfferList 2 ns bs → offered_signatures bs ≡ ok ns
unfolding offered_signatures signatures_body
offered_signatures-ok ns bs (v, (t, et, (lt, ft)), q, some) = run-ReadsEnd (
    ReadsEnd-cast (et ∙ ap (λ (x : Bytes). t ++ x) (sym (append-nil v)))
      (sym (pairs_of_list ns v q))
      (ReadsEnd-bind _ (Reads-u16_of (length v) t lt ft) (
        ReadsEnd-require _ (ok_size (length v) some (even_list ns v q)) (
          ReadsEnd-bind _ (Reads-read_of (length v) v refl)
            (ReadsEnd-empty _ (ReadsEnd-require true refl (ReadsEnd-pure _)))))))

pub offered_versions-Ensures :
    (bs : Bytes) → Ensures proof_format (λ ns. OfferList 1 ns bs) (offered_versions bs)
unfolding offered_versions versions_body
offered_versions-Ensures bs =
    Ensures-weaken
      (λ ns (used, left, e, (l, q)). subst (λ (x : Bytes). OfferList 1 ns x) (taken_whole e l) q)
      (Ensures-run {Q = λ used left ns. (left ≡ []) × OfferList 1 ns used} (
        Parses-bind _ (Parses-u8 bs) λ t left₁ n e₁ et. Parses-require _ λ size.
          Parses-read_bind _ λ v left₂ e₂ lv. Parses-empty _ λ done end. Parses-require _ λ is_done.
            Parses-pure _ (
              end is_done,
              (
                v,
                (
                  t,
                  ap (λ (x : Bytes). t ++ x) (append-nil v),
                  ((single_number n et).0, lv ∙ (single_number n et).1),
                ),
                even_pairs v (rw lv (size_ok n size).1),
                rw lv (size_ok n size).0,
              ),
            )))

pub offered_versions-ok :
    (ns : List ℕ) (bs : Bytes) → OfferList 1 ns bs → offered_versions bs ≡ ok ns
unfolding offered_versions versions_body
offered_versions-ok ns bs (v, (t, et, (lt, ft)), q, some) = run-ReadsEnd (
    ReadsEnd-cast (et ∙ ap (λ (x : Bytes). t ++ x) (sym (append-nil v)))
      (sym (pairs_of_list ns v q))
      (ReadsEnd-bind _ (Reads-u8_of (length v) t lt ft) (
        ReadsEnd-require _ (ok_size (length v) some (even_list ns v q)) (
          ReadsEnd-bind _ (Reads-read_of (length v) v refl)
            (ReadsEnd-empty _ (ReadsEnd-require true refl (ReadsEnd-pure _)))))))
