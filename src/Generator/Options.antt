-- ===== src/Generator/Options.antt =====
-- `GenerationOptions` and `_validate_options` of src/connectcoin_p2c_tools/generator.py. Seconds are
-- counted in billionths; rounding of floats is not modelled.
use connectcoin_p2c_tools.Common.{
  ℕ, ◌≤◌, ◌≡◌, ◌↔◌, ◌⊎◌, inl, inr, refl, Bool, true, false, not, leb, ◌==◌, leb→le, &&-eq_true,
  arith,
}
use connectcoin_p2c_tools.Common.Outcome.{
  Result, ok, require, generation, ◌>>◌, Ensures, Ensures-ok, Ensures-require, Ensures-test,
}
use connectcoin_p2c_tools.Common.Values.{ℤ, pos, negsuc, in_range}

-- A float: not finite, or a number of seconds.
pub data Seconds : Type 0 where
  not_finite : Seconds
  finite : ℤ → Seconds

pub record GenerationOptions : Type 0 where
  pub port : ℤ
  pub connections_per_second : ℤ
  pub concurrency : ℤ
  pub connection_timeout : Seconds
  pub overall_timeout : Seconds
  pub max_attempts : ℤ
  pub allow_private_addresses : Bool
  pub enforce_root_pin : Bool

-- The defaults of the fields.
abbrev pub default_options : GenerationOptions
default_options = record {
  port = pos 443;
  connections_per_second = pos 1;
  concurrency = pos 1;
  connection_timeout = finite (pos 10000000000);
  overall_timeout = finite (pos 0);
  max_attempts = pos 0;
  allow_private_addresses = false;
  enforce_root_pin = true;
}

abbrev pub max_concurrency : ℕ
max_concurrency = 256

-- `connections_per_second < -1`
abbrev pub below_minus_1 : ℤ → Bool
below_minus_1 (pos n) = false
below_minus_1 (negsuc n) = not (n == 0)

abbrev pub is_zero : ℤ → Bool
is_zero (pos n) = n == 0
is_zero (negsuc n) = false

-- `math.isfinite(t) and t > 0`, and with `t >= 0`.
abbrev pub is_positive : Seconds → Bool
is_positive (finite (pos n)) = not (n == 0)
is_positive _ = false

abbrev pub is_non_negative : Seconds → Bool
is_non_negative (finite (pos n)) = true
is_non_negative _ = false

-- `max_attempts < 0`
abbrev pub is_negative : ℤ → Bool
is_negative (pos n) = false
is_negative (negsuc n) = true

unfoldable pub validate_options : GenerationOptions → Result (Unit {0})
validate_options options = do
  require (in_range 1 options.port 65535) generation
  require (not (below_minus_1 options.connections_per_second)) generation
  require (not (is_zero options.connections_per_second)) generation
  require (in_range 1 options.concurrency max_concurrency) generation
  require (is_positive options.connection_timeout) generation
  require (is_non_negative options.overall_timeout) generation
  require (not (is_negative options.max_attempts)) generation

-- The numbers of options that are allowed.
pub record Allowed (options : GenerationOptions) : Type 0 where
  pub port : ℕ
  pub concurrency : ℕ
  pub connection_timeout : ℕ
  pub overall_timeout : ℕ
  pub max_attempts : ℕ
  pub port_is : options.port ≡ pos port
  pub port_fits : (1 ≤ port) × (port ≤ 65535)
  -- No limit, or so many in a second.
  pub rate :
      (options.connections_per_second ≡ negsuc 0)
      ⊎ ((n : ℕ) × (options.connections_per_second ≡ pos n) × (1 ≤ n))
  pub concurrency_is : options.concurrency ≡ pos concurrency
  pub concurrency_fits : (1 ≤ concurrency) × (concurrency ≤ 256)
  pub connection_timeout_is : options.connection_timeout ≡ finite (pos connection_timeout)
  pub some_time : 1 ≤ connection_timeout
  pub overall_timeout_is : options.overall_timeout ≡ finite (pos overall_timeout)
  pub max_attempts_is : options.max_attempts ≡ pos max_attempts

range_number :
    (lo hi : ℕ) (i : ℤ) → in_range lo i hi ≡ true → (n : ℕ) × (i ≡ pos n) × (lo ≤ n) × (n ≤ hi)
range_number lo hi (pos n) h =
    let (a, b) = &&-eq_true (leb lo n) (leb n hi) h in (n, refl, leb→le lo n a, leb→le n hi b)
range_number lo hi (negsuc n) h = cc

rate_of :
    (i : ℤ)
    → not (below_minus_1 i) ≡ true
    → not (is_zero i) ≡ true
    → (i ≡ negsuc 0) ⊎ ((n : ℕ) × (i ≡ pos n) × (1 ≤ n))
rate_of (pos n) h k = inr (n, refl, ground arith)
rate_of (negsuc n) h k = inl (ground arith)

time_of : (t : Seconds) → is_positive t ≡ true → (n : ℕ) × (t ≡ finite (pos n)) × (1 ≤ n)
time_of not_finite h = cc
time_of (finite (pos n)) h = (n, refl, ground arith)
time_of (finite (negsuc n)) h = cc

span_of : (t : Seconds) → is_non_negative t ≡ true → (n : ℕ) × (t ≡ finite (pos n))
span_of not_finite h = cc
span_of (finite (pos n)) h = (n, refl)
span_of (finite (negsuc n)) h = cc

count_of : (i : ℤ) → not (is_negative i) ≡ true → (n : ℕ) × (i ≡ pos n)
count_of (pos n) h = (n, refl)
count_of (negsuc n) h = cc

validate_options-Ensures :
    (options : GenerationOptions)
    → Ensures generation (λ _. Allowed options) (validate_options options)
unfolding validate_options
validate_options-Ensures o = Ensures-require (in_range 1 o.port 65535) λ p.
    Ensures-require (not (below_minus_1 o.connections_per_second)) λ r₁.
      Ensures-require (not (is_zero o.connections_per_second)) λ r₂.
        Ensures-require (in_range 1 o.concurrency max_concurrency) λ c.
          Ensures-require (is_positive o.connection_timeout) λ t.
            Ensures-require (is_non_negative o.overall_timeout) λ s.
              Ensures-test (not (is_negative o.max_attempts)) λ m.
                let (port, port_is, p₁, p₂) = range_number 1 65535 o.port p in
                let (count, count_is, c₁, c₂) = range_number 1 256 o.concurrency c in
                let (time, time_is, some) = time_of o.connection_timeout t in
                let (span, span_is) = span_of o.overall_timeout s in
                let (attempts, attempts_is) = count_of o.max_attempts m in
                record {
                  port = port;
                  concurrency = count;
                  connection_timeout = time;
                  overall_timeout = span;
                  max_attempts = attempts;
                  port_is = port_is;
                  port_fits = (p₁, p₂);
                  rate = rate_of o.connections_per_second r₁ r₂;
                  concurrency_is = count_is;
                  concurrency_fits = (c₁, c₂);
                  connection_timeout_is = time_is;
                  some_time = some;
                  overall_timeout_is = span_is;
                  max_attempts_is = attempts_is;
                }

in_range_lem : (lo hi n : ℕ) → lo ≤ n → n ≤ hi → in_range lo (pos n) hi ≡ true
in_range_lem lo hi n h k = ground arith

rate_tests :
    (i : ℤ)
    → (i ≡ negsuc 0) ⊎ ((n : ℕ) × (i ≡ pos n) × (1 ≤ n))
    → (not (below_minus_1 i) ≡ true) × (not (is_zero i) ≡ true)
rate_tests i (inl e) = rw e (refl, refl)
rate_tests i (inr (n, e, h)) = rw e (refl, ground arith)

some_seconds : (n : ℕ) → 1 ≤ n → is_positive (finite (pos n)) ≡ true
some_seconds n h = ground arith

validate_options-Allowed :
    (options : GenerationOptions) → Allowed options → validate_options options ≡ ok tt
unfolding validate_options
validate_options-Allowed o a =
    let (r₁, r₂) = rate_tests o.connections_per_second a.rate in
    rw
      (
        a.port_is,
        in_range_lem 1 65535 a.port a.port_fits.0 a.port_fits.1,
        r₁,
        r₂,
        a.concurrency_is,
        in_range_lem 1 256 a.concurrency a.concurrency_fits.0 a.concurrency_fits.1,
        a.connection_timeout_is,
        some_seconds a.connection_timeout a.some_time,
        a.overall_timeout_is,
        a.max_attempts_is,
      )
      refl

-- The options pass exactly if the port is 1 to 65535, the rate is -1 or positive, the concurrency
-- is 1 to 256, the connection timeout is finite and positive, the overall timeout is finite and
-- not negative, and the limit of attempts is not negative.
pub validate_options_iff :
    (options : GenerationOptions) → (validate_options options ≡ ok tt) ↔ Allowed options
validate_options_iff options =
    (λ h. Ensures-ok (validate_options-Ensures options) h, validate_options-Allowed options)
