-- ===== src/Error.antt =====
-- Go's error values, and a value with an error.
use smeltry_operator.Base.{String, ◌≡◌, refl, ◌⊎◌, inl, inr}

-- `external` is an error that a library returned, `message` one that errors.New or fmt.Errorf
-- built, and `wrapped` one that fmt.Errorf built around another by %w.
pub data Error : Type 0 where
  external : String → Error
  message : String → Error
  wrapped : String → Error → Error

-- (value, err), of which the code reads the value only where err is nil.
pub data Result (A : Type 0) : Type 0 where
  ok : A → Result A
  err : Error → Result A

pub Result-cases :
    {A : Type 0} (v : Result A) → ((a : A) × (v ≡ ok a)) ⊎ ((e : Error) × (v ≡ err e))
Result-cases (ok a) = inl (a, refl)
Result-cases (err e) = inr (e, refl)
