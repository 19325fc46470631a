-- ===== src/Common/Outcome.antt =====
-- The outcome of a call: a value, a raised exception, or a loop that ran out of fuel (which is no
-- outcome of the program). An exception is its class (errors.py, the
-- classes of tls13.py and generator.py, the built-in ones, and InvalidVersion of cryptography); its text is not modelled.
use mathlib.Core.Path.{◌≡◌, refl, subst}
use mathlib.Core.Logic.{◌≢◌, ◌⊎◌, inl, inr}
use mathlib.Core.Bool.{Bool, true, false}
use native.Mathlib.Omega.{arith}

pub data Exception : Type 0 where
  proof_format proof_verification tls_generation generation : Exception
  value_error key_error index_error overflow_error os_error : Exception
  unicode_error json_decode_error recursion_error invalid_version : Exception

-- `except ValueError`: UnicodeError and JSONDecodeError are its subclasses.
abbrev pub is_value_error : Exception → Bool
is_value_error Exception.value_error = true
is_value_error Exception.unicode_error = true
is_value_error Exception.json_decode_error = true
is_value_error _ = false

pub data Result {ℓ} (A : Type ℓ) : Type ℓ where
  ok : A → Result A
  raises : Exception → Result A
  out_of_fuel : Result A

infixl 5 ◌>>=◌
abbrev pub ◌>>=◌ {ℓ κ} : {A : Type ℓ} {B : Type κ} → Result A → (A → Result B) → Result B
out_of_fuel >>= rest = out_of_fuel
raises e >>= rest = raises e
ok value >>= rest = rest value

infixl 5 ◌>>◌
abbrev pub ◌>>◌ {κ} : {A : Type κ} → Result (Unit {0}) → Result A → Result A
first >> next = first >>= λ _. next

-- `if not test: raise e`
abbrev pub require : Bool → Exception → Result (Unit {0})
require true e = ok tt
require false e = raises e

-- The run ends; it raises nothing but `e`; and `P` holds of the value that it returns, if any.
pub data Ensures {ℓ κ} {A : Type ℓ} (e : Exception) (P : A → Type κ) : Result A → Type (ℓ ⊔ κ) where
  holds : {a : A} → P a → Ensures e P (ok a)
  rejects : Ensures e P (raises e)

module _ {ℓ κ} {A : Type ℓ} {e : Exception} {P : A → Type κ} where
  pub Ensures-ok : {r : Result A} {a : A} → Ensures e P r → r ≡ ok a → P a
  Ensures-ok (holds h) p = subst P (cc) h
  Ensures-ok rejects p = cc

  Ensures-raises : {r : Result A} {x : Exception} → Ensures e P r → r ≡ raises x → x ≡ e
  Ensures-raises (holds h) p = cc
  Ensures-raises rejects p = ground arith

  Ensures-out_of_fuel : {r : Result A} → Ensures e P r → r ≢ out_of_fuel
  Ensures-out_of_fuel (holds h) = cc
  Ensures-out_of_fuel rejects = cc

  pub Ensures-bind {ℓ' κ'} :
      {B : Type ℓ'} {Q : B → Type κ'} {r : Result A} {f : A → Result B}
      → Ensures e P r
      → ((a : A) → P a → Ensures e Q (f a))
      → Ensures e Q (r >>= f)
  Ensures-bind (holds {a} h) k = k a h
  Ensures-bind rejects k = rejects

-- A test at the end of a block.
pub Ensures-test {κ} :
    {e : Exception} {Q : Unit {0} → Type κ} (b : Bool)
    → (b ≡ true → Q tt)
    → Ensures e Q (require b e)
Ensures-test true k = holds (k refl)
Ensures-test false k = rejects

module _ {ℓ κ} {A : Type ℓ} {e : Exception} {P : A → Type κ} where
  pub Ensures-require :
      (b : Bool) {r : Result A} → (b ≡ true → Ensures e P r) → Ensures e P (require b e >> r)
  Ensures-require true k = k refl
  Ensures-require false k = rejects

  pub Ensures-weaken {κ'} :
      {Q : A → Type κ'} {r : Result A} → ((a : A) → P a → Q a) → Ensures e P r → Ensures e Q r
  Ensures-weaken f (holds {a} h) = holds (f a h)
  Ensures-weaken f rejects = rejects

pub returns_or_rejects {ℓ} :
    {A : Type 0} {e : Exception} {P : A → Type ℓ} {r : Result A}
    → Ensures e P r
    → ((a : A) × (r ≡ ok a)) ⊎ (r ≡ raises e)
returns_or_rejects (holds {a} h) = inl (a, refl)
returns_or_rejects rejects = inr refl

-- One step of a block that succeeds.
pub bind_ok {ℓ κ} :
    {A : Type ℓ} {B : Type κ} {m : Result A} (f : A → Result B) {a : A} {b : Result B}
    → m ≡ ok a
    → f a ≡ b
    → (m >>= f) ≡ b
bind_ok f h k = rw h k

-- A block that returns has a first call that returned.
pub bind_inv {ℓ κ} :
    {B : Type κ} {A : Type ℓ} {result : B} (rest : A → Result B) (call : Result A)
    → (call >>= rest) ≡ ok result
    → (value : A) × (call ≡ ok value) × (rest value ≡ ok result)
bind_inv rest out_of_fuel returned = cc
bind_inv rest (raises e) returned = cc
bind_inv rest (ok value) returned = (value, refl, returned)

pub require_ok {ℓ} :
    {B : Type ℓ} {test : Bool} (e : Exception) {m b : Result B}
    → test ≡ true
    → m ≡ b
    → (require test e >> m) ≡ b
require_ok e h k = rw h k

-- The run ends; it raises an exception that `E` allows, or returns a value of which `P` holds.
pub data Ends {ℓ κ ι} {A : Type ℓ} (E : Exception → Type ι) (P : A → Type κ)
    : Result A → Type (ℓ ⊔ κ ⊔ ι) where
  returns : {a : A} → P a → Ends E P (ok a)
  stops : {e : Exception} → E e → Ends E P (raises e)

module _ {ℓ κ ι} {A : Type ℓ} {E : Exception → Type ι} {P : A → Type κ} where
  pub Ends-ok : {r : Result A} {a : A} → Ends E P r → r ≡ ok a → P a
  Ends-ok (returns h) p = subst P (cc) h
  Ends-ok (stops h) p = cc

  pub Ends-bind {ℓ' κ'} :
      {B : Type ℓ'} {Q : B → Type κ'} {r : Result A} {f : A → Result B}
      → Ends E P r
      → ((a : A) → P a → Ends E Q (f a))
      → Ends E Q (r >>= f)
  Ends-bind (returns {a} h) k = k a h
  Ends-bind (stops h) k = stops h

  pub Ensures-Ends : {e : Exception} {r : Result A} → E e → Ensures e P r → Ends E P r
  Ensures-Ends h (holds k) = returns k
  Ensures-Ends h rejects = stops h

pub Ends-require {ℓ κ ι} :
    {A : Type ℓ} {E : Exception → Type ι} {P : A → Type κ} {r : Result A} (b : Bool) (e : Exception)
    → E e
    → (b ≡ true → Ends E P r)
    → Ends E P (require b e >> r)
Ends-require true e h k = k refl
Ends-require false e h k = stops h

pub Ends-test {κ ι} :
    {E : Exception → Type ι} {P : Unit {0} → Type κ} (b : Bool) (e : Exception)
    → E e
    → (b ≡ true → P tt)
    → Ends E P (require b e)
Ends-test true e h k = returns (k refl)
Ends-test false e h k = stops h

pub Ends-value {ℓ κ ι} :
    {A : Type ℓ} {E : Exception → Type ι} {P : A → Type κ} {r : Result A}
    → Ends E P r
    → ((a : A) × (r ≡ ok a) × P a) ⊎ ((e : Exception) × (r ≡ raises e) × E e)
Ends-value (returns {a} h) = inl (a, refl, h)
Ends-value (stops {e} h) = inr (e, refl, h)

pub Ends-weaken {ℓ κ ι κ' ι'} :
    {A : Type ℓ} {E : Exception → Type ι} {P : A → Type κ} {F : Exception → Type ι'}
    {Q : A → Type κ'} {r : Result A}
    → ((e : Exception) → E e → F e)
    → ((a : A) → P a → Q a)
    → Ends E P r
    → Ends F Q r
Ends-weaken f g (returns {a} h) = returns (g a h)
Ends-weaken f g (stops {e} h) = stops (f e h)

pub require_inv {ℓ} :
    {A : Type ℓ} {a : A} (test : Bool) (e : Exception) (rest : Result A)
    → (require test e >> rest) ≡ ok a
    → (test ≡ true) × (rest ≡ ok a)
require_inv true e rest h = (refl, h)
require_inv false e rest h = cc

-- What is known of an end holds together with the equation for it.
pub Ends-equation {ℓ κ ι} :
    {A : Type ℓ} {E : Exception → Type ι} {P : A → Type κ} {r : Result A}
    → Ends E P r
    → Ends E (λ a. (r ≡ ok a) × P a) r
Ends-equation (returns h) = returns (refl, h)
Ends-equation (stops h) = stops h
