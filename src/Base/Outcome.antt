-- ===== src/Base/Outcome.antt =====
-- What a call that may fail returns, and the step of an object that keeps its state on failure.
use mathlib.Core.Path.{◌≡◌, refl}
use mathlib.Core.Bool.{Bool, true, false}
use mathlib.Core.Logic.{◌⊎◌, inl, inr}
use zbroker.Base.Bytes.{Text}

-- sized_queue.hpp makes `broker_timeout`, `broker_not_inited` and the rest synonyms of one class,
-- so a handler tells them apart by the message alone.
pub data Error : Type 0 where
  broker_exception : Text → Error
  thrown_text : Text → Error  -- throw "..."
  json_error : Error  -- thrown by mongo::fromjson
  system_error : Error  -- a boost::system::error_code that is thrown
  assertion_failed : Error  -- BOOST_ASSERT
  bad_alloc : Error
  undefined_behaviour : Error
  no_return : Error  -- the call never returns

pub data Result {ℓ} (A : Type ℓ) : Type ℓ where
  ok : A → Result A
  err : Error → Result A

abbrev pub guard : Bool → Error → Result (Unit {0})
guard true e = ok tt
guard false e = err e

pub Result-cases {ℓ} :
    {A : Type ℓ} (r : Result A) → ((a : A) × (r ≡ ok a)) ⊎ ((e : Error) × (r ≡ err e))
Result-cases (ok a) = inl (a, refl)
Result-cases (err e) = inr (e, refl)
