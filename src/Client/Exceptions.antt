-- ===== src/Client/Exceptions.antt =====
-- src/common/exceptions: the exception classes with the fields and messages that their constructors
-- set. `show` is how a template text prints a value.
use Prim.Native.Char.{code}
use Prim.Native.String
use workos_node.Prelude.{
  ℕ, ◌+◌, leb, suc, String, ◌&&◌, Option, none, some, List, [], ◌∷◌, ◌==◌, any, str_eq,
  if◌then◌else◌,
}
use workos_node.Js.{Value, str, arr, Items, nil, cons, truthy, nullish, prop}
use workos_node.Http.{RequestError}

-- `Number(header)`, which may be `NaN`.
pub data Seconds : Type 0 where
  seconds : ℕ → Seconds
  not_a_number : Seconds

pub record Conflict : Type 0 where
  pub message : Value
  pub request_id : String
  pub code : Value

pub record Unprocessable : Type 0 where
  pub message : Value
  pub request_id : String
  pub code : Value

pub record NotFound : Type 0 where
  pub message : Value
  pub request_id : String
  pub code : Value

pub record BadRequest : Type 0 where
  pub message : Value
  pub request_id : String
  pub code : Value
  pub errors : Value

-- `GenericServerException`, and what `AuthenticationException` and `RateLimitExceededException`
-- add to it.
pub record GenericServer : Type 0 where
  pub status : ℕ
  pub message : Value
  pub raw_data : Value
  pub request_id : String
  pub code : Value

pub record Authentication : Type 0 where
  pub server : GenericServer
  pub code : String
  pub pending_authentication_token : Value
  pub radar_challenge_id : Value

pub record RateLimitExceeded : Type 0 where
  pub server : GenericServer
  pub retry_after : Option Seconds

pub record Oauth : Type 0 where
  pub status : ℕ
  pub request_id : String
  pub error : Value
  pub error_description : Value
  pub raw_data : Value
  pub message : String

-- `unexpected` is the generic `Error` with the original as its cause; `type_error` is thrown by the
-- language when a property of null or undefined is read.
pub data Exception : Type 0 where
  api_key_required : String → Exception
  unauthorized : String → Exception
  conflict : Conflict → Exception
  unprocessable_entity : Unprocessable → Exception
  not_found : NotFound → Exception
  bad_request : BadRequest → Exception
  generic_server : GenericServer → Exception
  authentication : Authentication → Exception
  rate_limit_exceeded : RateLimitExceeded → Exception
  oauth : Oauth → Exception
  unexpected : RequestError → Exception
  type_error : Exception

abbrev pub authentication_error_codes : List String
authentication_error_codes =
    "email_verification_required" ∷ "organization_selection_required" ∷ "mfa_enrollment"
    ∷ "mfa_challenge" ∷ "mfa_verification" ∷ "radar_email_challenge" ∷ "radar_sms_challenge"
    ∷ "sso_required" ∷ []

unfoldable pub parse_authentication_error_code : Value → Option String
parse_authentication_error_code (str s) =
    if any (λ code. str_eq code s) authentication_error_codes then some s else none
parse_authentication_error_code v = none

unfoldable pub get_authentication_error_code : Value → Option String
get_authentication_error_code payload =
    elim (parse_authentication_error_code (prop payload "code")) [
      | none ↦ parse_authentication_error_code (prop payload "error")
      | some code ↦ some code
    ]

-- `if (value) this.field = value`, over a default.
abbrev pub if_truthy : Value → Value → Value
if_truthy v default = if truthy v then v else default

abbrev pub new_generic : ℕ → Value → Value → String → GenericServer
new_generic status message raw request_id = record {
  status = status;
  message = if_truthy message (str "The request could not be completed.");
  raw_data = raw;
  request_id = request_id;
  code = prop raw "code";
}

-- `length` of a text, in code units of UTF-16.
unfoldable pub utf16_length : String → ℕ
utf16_length String.[] = 0
utf16_length (String.◌∷◌ c s) = (if leb 0x10000 (code c) then 2 else 1) + utf16_length s

module _ (show : Value → String) where
  unfoldable pub conflict_message : Value → Value → Value
  conflict_message message error =
      if truthy message
      then message
      else if truthy error
      then str (String.◌++◌ "Error: " (show error))
      else str "A conflict has occurred on the server."

  unfoldable pub oauth_message : Value → Value → String
  oauth_message error description =
      if truthy error && truthy description
      then String.◌++◌ "Error: "
          (String.◌++◌ (show error) (String.◌++◌ "\nError Description: " (show description)))
      else if truthy error
      then String.◌++◌ "Error: " (show error)
      else "An error has occurred."

  -- The lines of the requirements; `none` is the TypeError of `const { code } = null`.
  unfoldable pub requirement_lines : Items → String → Option String
  requirement_lines nil acc = some acc
  requirement_lines (cons v rest) acc =
      let line = String.◌++◌ "\t" (String.◌++◌ (show (prop v "code")) "\n") in
      let more = requirement_lines rest (String.◌++◌ acc line) in if nullish v then none else more

  abbrev pub count_items : Items → ℕ
  count_items nil = 0
  count_items (cons v rest) = suc (count_items rest)

  -- A text is iterated by its code points, which have no `code`.
  unfoldable pub character_lines : String → String → String
  character_lines String.[] acc = acc
  character_lines (String.◌∷◌ c s) acc =
      character_lines s
        (String.◌++◌ acc (String.◌++◌ "\t" (String.◌++◌ (show (prop (str "") "code")) "\n")))

  abbrev pub first_line : ℕ → String
  first_line n =
      String.◌++◌ "The following "
        (String.◌++◌ (if n == 1 then "requirement" else "requirements") " must be met:\n")

  -- Arrays and texts are iterated; a number, a truth value and an object of JSON are not iterable, which
  -- is a TypeError.
  unfoldable pub unprocessable_message : Value → Value → Option Value
  unfolding character_lines
  unprocessable_message errors message =
      if truthy errors
      then elim errors [
        | arr items ↦ elim (requirement_lines items (first_line (count_items items))) [
          | none ↦ none
          | some text ↦ some (str text)
        ]
        | str s ↦ some (str (character_lines s (first_line (utf16_length s))))
        | _ ↦ none
      ]
      else some (if_truthy message (str "Unprocessable entity"))
