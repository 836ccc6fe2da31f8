-- ===== src/Prelude/Results.antt =====
-- `Result<T, LemmyError>` (lemmy_utils/src/lib.rs) and its `?`.
use Prim.Native.String.{String}
use mathlib.Core.Bool.{Bool, true, false}
use mathlib.Core.Option.{Option, none, some}

-- An `APIError` keeps its message; an error of a library is only known to be one.
pub data LemmyError : Type 0 where
  api : String → LemmyError
  internal : LemmyError

pub data Result {ℓ} (A : Type ℓ) : Type ℓ where
  ok : A → Result A
  err : LemmyError → Result A

abbrev pub is_ok {ℓ} : {A : Type ℓ} → Result A → Bool
is_ok (ok a) = true
is_ok (err e) = false

-- `.ok_or(e)` and `.context(…)`.
abbrev pub or_err {ℓ} : {A : Type ℓ} → Option A → LemmyError → Result A
or_err none e = err e
or_err (some a) e = ok a
