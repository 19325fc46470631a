-- ===== src/Protocol/ClientHello/KeyShares.antt =====
-- The key shares of ClientHello (src/connectcoin_p2c_tools/protocol.py, `_parse_client_hello`).
use connectcoin_p2c_tools.Common.{
  ℕ, zero, suc, ◌<◌, ◌≡◌, ◌≢◌, inl, inr, refl, sym, ap, ◌∙◌, subst, Bool, true, false, ◌||◌, not,
  List, [], ◌∷◌, ◌++◌, append_assoc, append-nil, arith, ◌!=◌, length, Bytes, Bool-cases, !=→ne,
  ne→!=, taken_whole,
}
use connectcoin_p2c_tools.Common.Outcome.{ok, proof_format, Ensures, Ensures-weaken}
use connectcoin_p2c_tools.Protocol.Reader.Laws.{
  ReadsEnd, ReadsEnd-bind, ReadsEnd-require, ReadsEnd-empty, ReadsEnd-pure, run-ReadsEnd, Parses,
}
use connectcoin_p2c_tools.Protocol.Reader.Laws.Numbers.{
  ReadsEnd-cast, ReadsEnd-not_empty, ReadsEnd-lift_last, Reads-u16_of, Reads-read_of,
}
use connectcoin_p2c_tools.Protocol.Reader.Laws.Parsing.{
  Parses-bind, Parses-require, Parses-pure, Parses-empty, Parses-read_bind, lengths,
  Parses-lift_last, Parses-weaken, Parses-u16, Ensures-run,
}
use connectcoin_p2c_tools.Protocol.Format.{KeyShare, ShareList, ShareBlock}
use connectcoin_p2c_tools.Protocol.ClientHello.{
  valid_key_share, share_loop, shares_body, offered_groups,
}

share_test :
    (g : ℕ) (x : Bytes) (b : Bool)
    → not (not (valid_key_share g x) || b) ≡ true
    → KeyShare g x × (b ≡ false)
unfolding valid_key_share
share_test g x b h = ground arith

pub KeyShare-valid : (g : ℕ) (x : Bytes) → KeyShare g x → valid_key_share g x ≡ true
unfolding valid_key_share
KeyShare-valid g x h = ground arith

pub valid-KeyShare : (g : ℕ) (x : Bytes) → valid_key_share g x ≡ true → KeyShare g x
unfolding valid_key_share
valid-KeyShare g x h = ground arith

abbrev Shares : List ℕ → Bytes → Bytes → List ℕ → Type 0
Shares groups bs left gs =
    (new : List ℕ) × (left ≡ []) × (gs ≡ groups ++ new) × ShareList groups new bs

Parses-share_loop :
    (fuel : ℕ) (groups : List ℕ) (rest : Bytes)
    → length rest < fuel
    → Parses (share_loop fuel groups) rest (Shares groups)
unfolding share_loop
Parses-share_loop zero groups rest h = absurd (omega arith)
Parses-share_loop (suc fuel) groups rest h = Parses-empty _ (λ b e. elim (Bool-cases b) [
  | inl d ↦ rw d (Parses-pure groups ([], e d, sym (append-nil groups), refl))
  | inr d ↦ rw d (
      Parses-bind _ (Parses-u16 rest) λ t left₁ g e₁ (lt, ft).
        Parses-bind _ (Parses-u16 left₁) λ s left₂ n e₂ (ls, fs). Parses-require _ λ some.
          Parses-read_bind _ λ v left₃ e₃ lv. Parses-require _ λ good.
            Parses-weaken
              (Parses-share_loop fuel (groups ++ (g ∷ [])) left₃
                (omega (lengths, ap length e₁, ap length e₂, ap length e₃)))
              λ bs left gs (new, l, eg, el). (
                g ∷ new,
                l,
                eg ∙ append_assoc groups (g ∷ []) new,
                (
                  t,
                  s ++ v,
                  v,
                  bs,
                  ap (λ (x : Bytes). t ++ x) (sym (append_assoc s v bs)),
                  (lt, ft),
                  (s, refl, (ls, lv ∙ fs)),
                  (share_test g v _ good).0,
                  (share_test g v _ good).1,
                  el,
                ),
              ))
])

ReadsEnd-share_loop :
    (fuel : ℕ) (groups new : List ℕ) (bs : Bytes)
    → length bs < fuel
    → ShareList groups new bs
    → ReadsEnd (share_loop fuel groups) bs (groups ++ new)
unfolding share_loop
ReadsEnd-share_loop zero groups new bs h el = absurd (omega arith)
ReadsEnd-share_loop (suc fuel) groups [] bs h el =
    rw (el, append-nil groups) (ReadsEnd-empty _ (ReadsEnd-pure groups))
ReadsEnd-share_loop (suc fuel) groups (g ∷ new) bs h
      (kind, value, v, more, e, (lt, ft), (s, es, (ls, fs)), share, fresh, el) =
    ReadsEnd-cast layout (sym (append_assoc groups (g ∷ []) new)) (
      ReadsEnd-not_empty _ (omega (lengths, lt)) (
        ReadsEnd-bind _ (Reads-u16_of g kind lt ft) (
          ReadsEnd-bind _ (Reads-u16_of (length v) s ls fs) (
            ReadsEnd-require (length v != 0) (ne→!= (length v) 0 (share_some g v share)) (
              ReadsEnd-bind _ (Reads-read_of (length v) v refl) (
                ReadsEnd-require _ (rw (KeyShare-valid g v share, fresh) refl) (
                  ReadsEnd-share_loop fuel (groups ++ (g ∷ [])) new more
                    (omega (lengths, ap length layout)) el)))))))
  where
    layout : bs ≡ kind ++ (s ++ (v ++ more))
    layout = rw (e, es, append_assoc s v more) refl

    share_some : (g : ℕ) (x : Bytes) → KeyShare g x → length x ≢ 0
    share_some g x (inl (p, q)) = λ z. absurd (omega arith)
    share_some g x (inr (p, q, r)) = λ z. absurd (omega arith)

pub offered_groups-Ensures :
    (bs : Bytes) → Ensures proof_format (λ gs. ShareBlock gs bs) (offered_groups bs)
unfolding offered_groups shares_body
offered_groups-Ensures bs =
    Ensures-weaken
      (λ ns (used, left, e, (l, q)). subst (λ (x : Bytes). ShareBlock ns x) (taken_whole e l) q)
      (Ensures-run {Q = λ used left gs. (left ≡ []) × ShareBlock gs used} (
        Parses-bind _ (Parses-u16 bs) λ t left₁ n e₁ (lt, ft). Parses-require _ λ some.
          Parses-read_bind _ λ v left₂ e₂ lv. Parses-empty _ λ done end. Parses-require _ λ is_done.
            Parses-lift_last (Ensures-run (Parses-share_loop (suc (length v)) [] v (omega arith)))
              λ gs (used, left, e, (new, l, eg, el)). (
                end is_done,
                (
                  v,
                  (t, ap (λ (x : Bytes). t ++ x) (append-nil v), (lt, lv ∙ ft)),
                  omega (arith, lv, !=→ne _ _ some),
                  subst (λ (x : List ℕ). ShareList [] x v) (sym eg)
                      (subst (λ (x : Bytes). ShareList [] new x) (taken_whole e l) el),
                ),
              )))

pub offered_groups-ok : (gs : List ℕ) (bs : Bytes) → ShareBlock gs bs → offered_groups bs ≡ ok gs
unfolding offered_groups shares_body
offered_groups-ok gs bs (v, (t, et, (lt, ft)), some, q) = run-ReadsEnd (
    ReadsEnd-cast (et ∙ ap (λ (x : Bytes). t ++ x) (sym (append-nil v))) refl (
      ReadsEnd-bind _ (Reads-u16_of (length v) t lt ft) (
        ReadsEnd-require (length v != 0) (ne→!= (length v) 0 (λ z. absurd (omega arith))) (
          ReadsEnd-bind _ (Reads-read_of (length v) v refl) (
            ReadsEnd-empty _ (
              ReadsEnd-require true refl (
                ReadsEnd-lift_last (
                  run-ReadsEnd
                    (ReadsEnd-share_loop (suc (length v)) [] gs v (omega arith) q)))))))))
