-- ===== src/Http/Types.antt =====
-- net/http: what is sent, and what comes back.
use smeltry_operator.Base.{ℕ, String, Option, List}
use smeltry_operator.Http.Bytes.{Bytes}
use smeltry_operator.Http.Json.{Json}

pub record Request : Type 0 where
  pub method : String
  pub url : Bytes
  pub headers : List (String × String)
  pub body : Option Json

-- `body` is the first JSON value of the answer's body, if there is one.
pub record Response : Type 0 where
  pub status_code : ℕ
  pub body : Option Json
