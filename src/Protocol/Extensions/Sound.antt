-- ===== src/Protocol/Extensions/Sound.antt =====
-- `_extensions` and `_read_handshake` of src/connectcoin_p2c_tools/protocol.py and their
-- formats.
use connectcoin_p2c_tools.Common.{
  ℕ, zero, suc, ◌+◌, ◌≤◌, ◌<◌, ◌≡◌, refl, sym, ap, ◌∙◌, subst, not, [], ◌∷◌, ◌++◌, append_assoc,
  append-nil, arith, ltb, ◌==◌, length, Bytes, Bool-cases, eq→==, ==-refl, le→not_ltb, taken_whole,
  not-eq_true, not_ltb→le, inl, inr, ==→eq, eq-nil_of_length,
}
use connectcoin_p2c_tools.Protocol.Format.{ExtensionList, Fresh, ExtensionBlock, Handshake}
use connectcoin_p2c_tools.Protocol.Reader.Laws.{
  Reads, ReadsEnd, Reads-bind, Reads-require, Reads-read, ReadsEnd-bind, ReadsEnd-require,
  ReadsEnd-remaining, ReadsEnd-empty, ReadsEnd-pure, run-ReadsEnd, Parses, Parses-read,
}
use connectcoin_p2c_tools.Protocol.Reader.Laws.Numbers.{
  Reads-cast, Reads-captured, ReadsEnd-cast, ReadsEnd-not_empty, ReadsEnd-lift_last, Reads-u8,
  Reads-u16_of, Reads-u24_of, Reads-read_of,
}
use connectcoin_p2c_tools.Protocol.Reader.Laws.Parsing.{
  Parses-bind, Parses-require, Parses-pure, Parses-remaining, Parses-empty, Parses-read_bind,
  lengths, Parses-lift_last, Parses-weaken, Parses-captured, Parses-u8, Parses-u16, Parses-u24,
  Ensures-run,
}
use connectcoin_p2c_tools.Protocol.Extensions.{
  Extensions, extension_loop, extensions, read_handshake,
}

abbrev Loops : Extensions → Bytes → Bytes → Extensions → Type 0
Loops result bs left d =
    (new : Extensions) × (left ≡ []) × (d ≡ result ++ new) × ExtensionList new bs × Fresh result new

Parses-extension_loop :
    (fuel : ℕ) (result : Extensions) (rest : Bytes)
    → length rest < fuel
    → Parses (extension_loop fuel result) rest (Loops result)
unfolding extension_loop
Parses-extension_loop zero result rest h = absurd (omega arith)
Parses-extension_loop (suc fuel) result rest h = Parses-empty _ (λ b e. elim (Bool-cases b) [
  | inl d ↦ rw d (Parses-pure result ([], e d, sym (append-nil result), refl, tt))
  | inr d ↦ rw d (
      Parses-bind _ (Parses-u16 rest) λ t left₁ k e₁ (lt, ft).
        Parses-bind _ (Parses-u16 left₁) λ s left₂ n e₂ (ls, fs).
          Parses-read_bind _ λ v left₃ e₃ lv. Parses-require _ λ fresh.
            Parses-weaken
              (Parses-extension_loop fuel (result ++ ((k, v) ∷ [])) left₃
                (omega (lengths, ap length e₁, ap length e₂, ap length e₃)))
              λ bs left d (new, l, ed, el, fr). (
                (k, v) ∷ new,
                l,
                ed ∙ append_assoc result ((k, v) ∷ []) new,
                (
                  t,
                  s ++ v,
                  bs,
                  ap (λ (x : Bytes). t ++ x) (sym (append_assoc s v bs)),
                  (lt, ft),
                  (s, refl, (ls, lv ∙ fs)),
                  el,
                ),
                (not-eq_true _ fresh, fr),
              ))
])

pub Parses-extensions :
    (rest : Bytes) → Parses extensions rest (λ bs left d. (left ≡ []) × ExtensionBlock d bs)
unfolding extensions
Parses-extensions rest = Parses-bind _ (Parses-u16 rest) λ t left₁ n e₁ (lt, ft).
    Parses-remaining _ (
      Parses-require _ λ whole. Parses-read_bind _ λ v left₂ e₂ lv.
        Parses-lift_last (Ensures-run (Parses-extension_loop (suc (length v)) [] v (omega arith)))
          λ d (bs, left, e, (new, l, ed, el, fr)).
            let all : bs ≡ v = taken_whole e l in
            let list : ExtensionList d v =
              subst (λ (x : Extensions). ExtensionList x v) (sym ed)
                (subst (λ (x : Bytes). ExtensionList new x) all el) in
            let fresh : Fresh [] d = subst (λ (x : Extensions). Fresh [] x) (sym ed) fr in
            (
              eq-nil_of_length left₂ (omega (lengths, ==→eq _ _ whole, ap length e₂)),
              (v, (t, ap (λ (x : Bytes). t ++ x) (append-nil v), (lt, lv ∙ ft)), list, fresh),
            ))

pub Parses-read_handshake :
    (kind maximum : ℕ) (rest : Bytes)
    → Parses
        (read_handshake kind maximum)
        rest
        (λ bs left (full, body). (full ≡ bs) × (Handshake kind body bs × (length bs ≤ maximum)))
unfolding read_handshake
Parses-read_handshake kind maximum rest =
    Parses-captured {Q = λ bs left body. Handshake kind body bs × (length bs ≤ maximum)} (
      Parses-bind _ (Parses-u8 rest) λ t left₁ k e₁ ek.
        Parses-bind _ (Parses-u24 left₁) λ s left₂ n e₂ (ls, fs). Parses-require _ λ same.
          Parses-require _ λ small. Parses-weaken (Parses-read n left₂) λ bs left body (eb, lb). (
            (
              s ++ bs,
              ap (λ (x : Bytes). x ++ (s ++ bs)) (ek ∙ ap (λ (y : ℕ). y ∷ []) (==→eq _ _ same)),
              (s, ap (λ (x : Bytes). s ++ x) (sym eb), (ls, ap length eb ∙ lb ∙ fs)),
            ),
            omega (lengths, ap length ek, lb, not_ltb→le _ _ small),
          ))

ReadsEnd-extension_loop :
    (fuel : ℕ) (result new : Extensions) (bs : Bytes)
    → length bs < fuel
    → ExtensionList new bs
    → Fresh result new
    → ReadsEnd (extension_loop fuel result) bs (result ++ new)
unfolding extension_loop
ReadsEnd-extension_loop zero result new bs h el fr = absurd (omega arith)
ReadsEnd-extension_loop (suc fuel) result [] bs h el fr =
    rw (el, append-nil result) (ReadsEnd-empty _ (ReadsEnd-pure result))
ReadsEnd-extension_loop (suc fuel) result ((k, v) ∷ new) bs h
      (kind, value, more, e, (lt, ft), (s, es, (ls, fs)), el) (fresh, fr) =
    ReadsEnd-cast layout (sym (append_assoc result ((k, v) ∷ []) new)) (
      ReadsEnd-not_empty _ (omega (lengths, lt)) (
        ReadsEnd-bind _ (Reads-u16_of k kind lt ft) (
          ReadsEnd-bind _ (Reads-u16_of (length v) s ls fs) (
            ReadsEnd-bind _ (Reads-read_of (length v) v refl) (
              ReadsEnd-require _ (rw fresh refl) (
                ReadsEnd-extension_loop fuel (result ++ ((k, v) ∷ [])) new more
                  (omega (lengths, ap length layout)) el fr))))))
  where
    layout : bs ≡ kind ++ (s ++ (v ++ more))
    layout = rw (e, es, append_assoc s v more) refl

pub ReadsEnd-extensions :
    (d : Extensions) (bs : Bytes) → ExtensionBlock d bs → ReadsEnd extensions bs d
unfolding extensions
ReadsEnd-extensions d bs (list, (t, et, (lt, ft)), el, fr) =
    ReadsEnd-cast (et ∙ ap (λ (x : Bytes). t ++ x) (sym (append-nil list))) refl (
      ReadsEnd-bind _ (Reads-u16_of (length list) t lt ft) (
        ReadsEnd-remaining _ (
          ReadsEnd-require _
            (eq→== (length (list ++ [])) (length list) (ap length (append-nil list)))
            (ReadsEnd-bind _ (Reads-read_of (length list) list refl) (
              ReadsEnd-lift_last (
                run-ReadsEnd
                  (ReadsEnd-extension_loop (suc (length list)) [] d list (omega arith) el fr)))))))

pub Reads-read_handshake :
    (kind maximum : ℕ) (bs body : Bytes)
    → Handshake kind body bs
    → length bs ≤ maximum
    → Reads (read_handshake kind maximum) bs (bs, body)
unfolding read_handshake
Reads-read_handshake kind maximum bs body (framed, e, (t, et, (lt, ft))) fits = Reads-captured (
    Reads-cast layout (
      Reads-bind _ (Reads-u8 kind) (
        Reads-bind _ (Reads-u24_of (length body) t lt ft) (
          Reads-require (kind == kind) (==-refl kind) (
            Reads-require (not (ltb maximum (length body + 4)))
              (le→not_ltb maximum (length body + 4) (omega (lengths, ap length e, ap length et)))
              (Reads-read body))))))
  where
    layout : bs ≡ (kind ∷ []) ++ (t ++ body)
    layout = rw (e, et) refl
