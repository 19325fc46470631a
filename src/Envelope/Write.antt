-- ===== src/Envelope/Write.antt =====
-- `ConnectionProof.write` of src/connectcoin_p2c_tools/envelope.py, on a directory. A run lists the
-- directory after each call of the operating system that changes it. Any such call may fail; which
-- ones do is given beforehand.
pub mod Atomic
pub mod Settled
use connectcoin_p2c_tools.Common.{
  ℕ, Bool, true, false, List, [], ◌∷◌, ◌++◌, Option, none, some, if◌then◌else◌, bytes_eq, take,
  Bytes,
}
use connectcoin_p2c_tools.Common.Outcome.{Result, ok, raises, out_of_fuel, proof_format}
use connectcoin_p2c_tools.Common.Values.{Value}
use connectcoin_p2c_tools.Envelope.{ConnectionProof, to_dict}

-- What each name stands for, if anything.
abbrev pub Directory : Type 0
Directory = List ℕ → Option Bytes

unfoldable pub put : Directory → List ℕ → Option Bytes → Directory
put d name content x = if bytes_eq x name then content else d x

-- The calls that raise OSError, and how much a failed write has written.
pub record Faults : Type 0 where
  pub create : Bool
  pub write : Bool
  pub written : ℕ
  pub sync : Bool
  pub publish : Bool
  pub unlink : Bool

abbrev pub Run : Type 0
Run = List Directory × Result (Unit {0})

-- The `finally` block, where the staging file is still there: an OSError is suppressed.
unfoldable pub remove_staging : Faults → List ℕ → Directory → List Directory
remove_staging faults temporary d = if faults.unlink then [] else put d temporary none ∷ []

abbrev pub is_some : Option Bytes → Bool
is_some none = false
is_some (some b) = true

-- From the closed staging file on: `os.replace`, or `os.link`, which fails on a name in use.
unfoldable pub publish : Faults → Bool → List ℕ → List ℕ → Directory → Run
publish faults overwrite destination temporary d =
    if overwrite
    then if faults.publish
      then (remove_staging faults temporary d, raises proof_format)
      else (put (put d destination (d temporary)) temporary none ∷ [], ok tt)
    else if is_some (d destination)
    then (remove_staging faults temporary d, raises proof_format)
    else if faults.publish
    then (remove_staging faults temporary d, raises proof_format)
    else (
      put d destination (d temporary)
          ∷ remove_staging faults temporary (put d destination (d temporary)),
      ok tt,
    )

abbrev pub after : List Directory → Run → Run
after ds (more, r) = (ds ++ more, r)

unfoldable pub write_serialized : Faults → Bool → List ℕ → List ℕ → Bytes → Directory → Run
write_serialized faults overwrite destination temporary serialized d =
    let opened = put d temporary (some []) in
    let partial = put opened temporary (some (take faults.written serialized)) in
    let full = put opened temporary (some serialized) in
    if faults.create
    then ([], raises proof_format)
    else if faults.write
    then (opened ∷ partial ∷ remove_staging faults temporary partial, raises proof_format)
    else if faults.sync
    then (opened ∷ full ∷ remove_staging faults temporary full, raises proof_format)
    else after (opened ∷ full ∷ []) (publish faults overwrite destination temporary full)

-- Nothing is created where to_dict raises.
abbrev pub write_outcome :
    (Value → Bytes) → Faults → List ℕ → Bool → List ℕ → Directory → Result Value → Run
write_outcome dumps faults destination overwrite temporary d (ok value) =
    write_serialized faults overwrite destination temporary (dumps value ++ (b'\n' ∷ [])) d
write_outcome dumps faults destination overwrite temporary d (raises e) = ([], raises e)
write_outcome dumps faults destination overwrite temporary d out_of_fuel = ([], out_of_fuel)

-- `dumps` is `json.dumps(value, indent=2, sort_keys=True)` in UTF-8, and `temporary` the name that
-- NamedTemporaryFile chooses.
unfoldable pub write :
    (Value → Bytes) → Faults → ConnectionProof → List ℕ → Bool → List ℕ → Directory → Run
write dumps faults self destination overwrite temporary d =
    write_outcome dumps faults destination overwrite temporary d (to_dict self)
