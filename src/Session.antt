-- ===== src/Session.antt =====
-- src/user-management/session.ts (`CookieSession`) and the parts of user-management.ts that it
-- calls: the refresh-token grant, the sealing of its answer, and the check of a token. The session
-- object is a record that each method returns anew. `jose` and `iron-webcrypto` are parameters.
pub mod Classify
pub mod Refresh
pub mod Authenticate
pub mod Toy
mod Tests
use Prim.Native.String
use workos_node.Prelude.{
  ℕ, String, Bool, true, false, not, ◌&&◌, ◌||◌, Option, none, some, List, [], ◌∷◌, leb, ◌==◌,
  str_eq, if◌then◌else◌, Result, ok, err,
}
use workos_node.Js.{Value}
use workos_node.Seal.{Iron}
use workos_node.Http.{RequestError}
use workos_node.Http.Verbs.{Platform}
use workos_node.Client.{Workos}
use workos_node.Client.Exceptions.{Exception, Seconds}

-- What `jwtVerify` comes to: an error may carry a text `code`.
pub data Verified : Type 0 where
  valid : Verified
  failed_with : String → Verified
  failed : Verified

-- Everything outside the session object. `client_id` is `userManagement.clientId`.
pub record World : Type 0 where
  pub iron : Iron
  pub jwt_verify : Value → Verified
  pub decode_jwt : Value → Option Value
  pub platform : Platform
  pub show : Value → String
  pub to_number : String → Seconds
  pub workos : Workos
  pub client_id : Option String

pub record CookieSession : Type 0 where
  pub session_data : List ℕ
  pub cookie_password : List ℕ

-- Whatever is thrown: an exception of the SDK, an error of the transport that was not turned into
-- one, a `TypeError`, or another error with its message.
pub data Thrown : Type 0 where
  exception : Exception → Thrown
  transport : RequestError → Thrown
  wrong_type : Thrown
  plain_error : String → Thrown

abbrev pub or_throw {ℓ} : {A : Type ℓ} → Option A → Thrown → Result Thrown A
or_throw none e = err e
or_throw (some a) e = ok a

-- The constructor refuses an empty password.
unfoldable pub new_session : List ℕ → List ℕ → Result Thrown CookieSession
new_session session_data [] = err (plain_error "cookiePassword is required")
new_session session_data (c ∷ s) =
    ok (record { session_data = session_data; cookie_password = c ∷ s })
