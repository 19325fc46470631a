-- ===== src/Envelope/Write/Settled.antt =====
-- How a write of src/connectcoin_p2c_tools/envelope.py ends.
use connectcoin_p2c_tools.Common.{
  ℕ, ◌≡◌, ◌≢◌, ◌⊎◌, inl, inr, refl, sym, ap, ◌∙◌, subst, Bool, true, false, List, [], ◌∷◌, none,
  some, take, Bytes, All, Bool-cases,
}
use connectcoin_p2c_tools.Common.Outcome.{Result, ok, raises, proof_format}
use connectcoin_p2c_tools.Common.Values.{Value}
use connectcoin_p2c_tools.Envelope.{ConnectionProof, to_dict}
use connectcoin_p2c_tools.Envelope.Write.{
  Directory, Faults, Run, remove_staging, is_some, publish, write_serialized, write_outcome, write,
}
use connectcoin_p2c_tools.Envelope.Write.Atomic.{put_same, put_other, text_of}

-- The directory at the end of a run.
abbrev pub last : Directory → List Directory → Directory
last d [] = d
last d (e ∷ ds) = last e ds

-- Published whole: the text is at the destination. Refused: the destination is as it was.
abbrev pub Settled : Directory → List ℕ → Bytes → Directory → Result (Unit {0}) → Type 0
Settled before destination text d r =
    ((r ≡ ok tt) × (d destination ≡ some text))
    ⊎ ((r ≡ raises proof_format) × (d destination ≡ before destination))

-- The run is refused and never touches the destination.
abbrev pub Keeps : Directory → List ℕ → Run → Type 0
Keeps before destination (ds, r) =
    (r ≡ raises proof_format) × All (λ (d : Directory). d destination ≡ before destination) ds

module _ (before : Directory) (destination temporary : List ℕ) (text : Bytes)
    (apart : destination ≢ temporary) where
  abbrev pub Ends : Directory → Run → Type 0
  Ends d (ds, r) = (last d ds temporary ≡ none) × Settled before destination text (last d ds) r

  refused :
      (faults : Faults) (d : Directory)
      → faults.unlink ≡ false
      → d destination ≡ before destination
      → Ends d (remove_staging faults temporary d, raises proof_format)
  unfolding remove_staging
  refused faults d u h =
      simp u
        (put_same d temporary none, inr (refl, put_other d temporary destination none apart ∙ h))

  Ends-publish :
      (faults : Faults) (overwrite : Bool) (d : Directory)
      → faults.unlink ≡ false
      → d temporary ≡ some text
      → d destination ≡ before destination
      → Ends d (publish faults overwrite destination temporary d)
  unfolding publish remove_staging
  Ends-publish faults true d u full h = elim (Bool-cases (faults.publish)) [
    | inl e ↦ simp e (refused faults d u h)
    | inr e ↦ simp e (
      put_same _ temporary none,
      inl (refl, put_other _ temporary destination none apart ∙ put_same d destination _ ∙ full),
    )
  ]
  Ends-publish faults false d u full h = elim (Bool-cases (is_some (d destination))) [
    | inl e ↦ simp e (refused faults d u h)
    | inr e ↦ elim (Bool-cases (faults.publish)) [
      | inl f ↦ simp (e, f) (refused faults d u h)
      | inr f ↦
          simp (e, f, u)
            (
              put_same _ temporary none,
              inl (
                refl,
                put_other _ temporary destination none apart ∙ put_same d destination _ ∙ full,
              ),
            )
    ]
  ]

  Ends-write_serialized :
      (faults : Faults) (overwrite : Bool)
      → faults.unlink ≡ false
      → before temporary ≡ none
      → Ends before (write_serialized faults overwrite destination temporary text before)
  unfolding write_serialized
  Ends-write_serialized faults overwrite u free =
      let kept = put_other before temporary destination (some []) apart in
      let partial =
        put_other _ temporary destination (some (take faults.written text)) apart ∙ kept in
      let full = put_other _ temporary destination (some text) apart ∙ kept in
      elim (Bool-cases (faults.create)) [
        | inl e ↦ simp e (free, inr (refl, refl))
        | inr e ↦ elim (Bool-cases (faults.write)) [
          | inl f ↦ simp (e, f) (refused faults _ u partial)
          | inr f ↦ elim (Bool-cases (faults.sync)) [
            | inl g ↦ simp (e, f, g) (refused faults _ u full)
            | inr g ↦
                simp (e, f, g)
                  (Ends-publish faults overwrite _ u (put_same _ temporary (some text)) full)
          ]
        ]
      ]

  Keeps-staging :
      (faults : Faults) (d : Directory)
      → d destination ≡ before destination
      → Keeps before destination (remove_staging faults temporary d, raises proof_format)
  unfolding remove_staging
  Keeps-staging faults d h = elim (Bool-cases (faults.unlink)) [
    | inl e ↦ simp e (refl, tt)
    | inr e ↦ simp e (refl, (put_other d temporary destination none apart ∙ h, tt))
  ]

  Keeps-publish :
      (faults : Faults) (d : Directory)
      → d destination ≡ before destination
      → is_some (d destination) ≡ true
      → Keeps before destination (publish faults false destination temporary d)
  unfolding publish
  Keeps-publish faults d h k = simp k (Keeps-staging faults d h)

  Keeps-write :
      (faults : Faults)
      → is_some (before destination) ≡ true
      → Keeps before destination (write_serialized faults false destination temporary text before)
  unfolding write_serialized
  Keeps-write faults h =
      let opened = put_other before temporary destination (some []) apart in
      let partial =
        put_other _ temporary destination (some (take faults.written text)) apart ∙ opened in
      let full = put_other _ temporary destination (some text) apart ∙ opened in
      elim (Bool-cases (faults.create)) [
        | inl e ↦ simp e (refl, tt)
        | inr e ↦ elim (Bool-cases (faults.write)) [
          | inl f ↦ simp (e, f) (refl, (opened, (partial, (Keeps-staging faults _ partial).1)))
          | inr f ↦ elim (Bool-cases (faults.sync)) [
            | inl g ↦ simp (e, f, g) (refl, (opened, (full, (Keeps-staging faults _ full).1)))
            | inr g ↦
                let rest = Keeps-publish faults _ full (ap is_some full ∙ h) in
                simp (e, f, g) (rest.0, (opened, (full, rest.1)))
          ]
        ]
      ]

module _ (dumps : Value → Bytes) (faults : Faults) (self : ConnectionProof) (destination : List ℕ)
    (temporary : List ℕ) (before : Directory) (value : Value) (serialized : to_dict self ≡ ok value)
    (apart : destination ≢ temporary) where
  -- A write whose clean-up does not fail, to a staging name that was free and is not the
  -- destination, leaves no staging file and either returns with the text at the destination or
  -- raises ProofFormatError with the destination as it was; to_dict must return.
  pub write-Settled :
      (overwrite : Bool)
      → faults.unlink ≡ false
      → before temporary ≡ none
      → (last before (write dumps faults self destination overwrite temporary before).0 temporary
          ≡ none)
        × Settled before destination
            (text_of dumps value)
            (last before (write dumps faults self destination overwrite temporary before).0)
            (write dumps faults self destination overwrite temporary before).1
  unfolding write
  write-Settled overwrite u free =
      subst
        (λ (r : Result Value).
          Ends before destination temporary (text_of dumps value) apart before
            (write_outcome dumps faults destination overwrite temporary before r))
        (sym serialized)
        (Ends-write_serialized before destination temporary (text_of dumps value) apart faults
          overwrite u free)

  -- A write without overwrite to a name in use raises ProofFormatError and keeps the destination
  -- as it was in every directory it passes through; to_dict must return and the staging name must
  -- differ from the destination.
  pub write-refuses :
      (content : Bytes)
      → before destination ≡ some content
      → Keeps before destination (write dumps faults self destination false temporary before)
  unfolding write
  write-refuses content h =
      subst
        (λ (r : Result Value).
          Keeps before destination
            (write_outcome dumps faults destination false temporary before r))
        (sym serialized)
        (Keeps-write before destination temporary (text_of dumps value) apart faults (ap is_some h))
