-- ===== src/Envelope/Write/Atomic.antt =====
-- The directories that a write of src/connectcoin_p2c_tools/envelope.py passes through.
use connectcoin_p2c_tools.Common.{
  ℕ, ◌≡◌, ◌≢◌, ◌⊎◌, inl, inr, refl, sym, ◌∙◌, subst, Bool, true, false, List, [], ◌∷◌, ◌++◌, Option,
  none, some, bytes_eq, bytes_eq→eq, bytes_eq_refl, take, Bytes, All, Bool-cases,
}
use connectcoin_p2c_tools.Common.Outcome.{Result, ok}
use connectcoin_p2c_tools.Common.Values.{Value}
use connectcoin_p2c_tools.Envelope.{ConnectionProof, to_dict}
use connectcoin_p2c_tools.Envelope.Write.{
  Directory, put, Faults, remove_staging, is_some, publish, write_serialized, write_outcome, write,
}

pub put_same :
    (d : Directory) (name : List ℕ) (content : Option Bytes) → put d name content name ≡ content
unfolding put
put_same d name content = rw (bytes_eq_refl name) refl

pub put_other :
    (d : Directory) (name x : List ℕ) (content : Option Bytes)
    → x ≢ name
    → put d name content x ≡ d x
unfolding put
put_other d name x content h = elim (Bool-cases (bytes_eq x name)) [
  | inl e ↦ absurd (h (bytes_eq→eq x name e))
  | inr e ↦ rw e refl
]

-- The destination is as it was, or holds the text; other names are as they were.
pub record IsIntact (before : Directory) (destination temporary : List ℕ) (text : Bytes)
    (d : Directory) : Type 0 where
  pub whole : (d destination ≡ before destination) ⊎ (d destination ≡ some text)
  pub others : (x : List ℕ) → x ≢ destination → x ≢ temporary → d x ≡ before x

module _ (before : Directory) (destination temporary : List ℕ) (text : Bytes)
    (apart : destination ≢ temporary) where
  abbrev Intact : Directory → Type 0
  Intact = IsIntact before destination temporary text

  IsIntact-before : Intact before
  IsIntact-before = record { whole = inl refl; others = λ x h k. refl }

  IsIntact-staged :
      (d : Directory) (content : Option Bytes) → Intact d → Intact (put d temporary content)
  IsIntact-staged d content h = record {
    whole = same (h.whole);
    others = λ x p q. put_other d temporary x content q ∙ h.others x p q;
  }
    where
      same :
          (d destination ≡ before destination) ⊎ (d destination ≡ some text)
          → (put d temporary content destination ≡ before destination)
            ⊎ (put d temporary content destination ≡ some text)
      same (inl e) = inl (put_other d temporary destination content apart ∙ e)
      same (inr e) = inr (put_other d temporary destination content apart ∙ e)

  IsIntact-published :
      (d : Directory)
      → d temporary ≡ some text
      → Intact d
      → Intact (put d destination (d temporary))
  IsIntact-published d full h = record {
    whole = inr (put_same d destination (d temporary) ∙ full);
    others = λ x p q. put_other d destination x (d temporary) p ∙ h.others x p q;
  }

  All-remove_staging :
      (faults : Faults) (d : Directory) → Intact d → All Intact (remove_staging faults temporary d)
  unfolding remove_staging
  All-remove_staging faults d h = elim (Bool-cases (faults.unlink)) [
    | inl e ↦ simp e tt
    | inr e ↦ simp e (IsIntact-staged d none h, tt)
  ]

  All-publish :
      (faults : Faults) (overwrite : Bool) (d : Directory)
      → d temporary ≡ some text
      → Intact d
      → All Intact (publish faults overwrite destination temporary d).0
  unfolding publish
  All-publish faults true d full h = elim (Bool-cases (faults.publish)) [
    | inl e ↦ simp e (All-remove_staging faults d h)
    | inr e ↦ simp e (IsIntact-staged _ none (IsIntact-published d full h), tt)
  ]
  All-publish faults false d full h = elim (Bool-cases (is_some (d destination))) [
    | inl e ↦ simp e (All-remove_staging faults d h)
    | inr e ↦ elim (Bool-cases (faults.publish)) [
      | inl f ↦ simp (e, f) (All-remove_staging faults d h)
      | inr f ↦
          simp (e, f)
            (IsIntact-published d full h, All-remove_staging faults _ (IsIntact-published d full h))
    ]
  ]

  All-write_serialized :
      (faults : Faults) (overwrite : Bool)
      → All Intact (write_serialized faults overwrite destination temporary text before).0
  unfolding write_serialized
  All-write_serialized faults overwrite =
      let opened = IsIntact-staged before (some []) IsIntact-before in
      let partial = IsIntact-staged _ (some (take faults.written text)) opened in
      let full = IsIntact-staged _ (some text) opened in
      elim (Bool-cases (faults.create)) [
        | inl e ↦ simp e tt
        | inr e ↦ elim (Bool-cases (faults.write)) [
          | inl f ↦ simp (e, f) (opened, (partial, All-remove_staging faults _ partial))
          | inr f ↦ elim (Bool-cases (faults.sync)) [
            | inl g ↦ simp (e, f, g) (opened, (full, All-remove_staging faults _ full))
            | inr g ↦
                simp (e, f, g)
                  (
                    opened,
                    (full, All-publish faults overwrite _ (put_same _ temporary (some text)) full),
                  )
          ]
        ]
      ]

abbrev pub text_of : (Value → Bytes) → Value → Bytes
text_of dumps value = dumps value ++ (b'\n' ∷ [])

-- In every directory that a write passes through, whatever calls fail, the destination is as it
-- was before or holds the whole text, and all names but the destination and the staging name are
-- as they were; to_dict must return and the staging name must differ from the destination.
pub write-IsIntact :
    (dumps : Value → Bytes) (faults : Faults) (self : ConnectionProof) (destination : List ℕ)
    (overwrite : Bool) (temporary : List ℕ) (before : Directory) (value : Value)
    → to_dict self ≡ ok value
    → destination ≢ temporary
    → All
        (IsIntact before destination temporary (text_of dumps value))
        (write dumps faults self destination overwrite temporary before).0
unfolding write
write-IsIntact dumps faults self destination overwrite temporary before value h apart =
    subst
      (λ (r : Result Value).
        All (IsIntact before destination temporary (text_of dumps value))
          (write_outcome dumps faults destination overwrite temporary before r).0)
      (sym h)
      (All-write_serialized before destination temporary (text_of dumps value) apart faults
        overwrite)
