-- ===== src/Delivery/Http.antt =====
-- internal/delivery/http/response/response.go, and what the handlers share: a request as its path,
-- its query and its body, and the answers. uuid.Parse, strconv.Atoi, time.Parse and the decoding of
-- JSON are parameters.
pub mod Auth
pub mod Message
pub mod Chat
pub mod User
pub mod Laws
pub mod Answers
pub mod History
pub mod Admission
pub mod Cors
use vibechat.Prelude.{ℕ, String, str_eq, Option, none, some, if◌then◌else◌, ℤ}
use vibechat.Exec.{Result, ok, err, Exec, pure, try, ◌>>=◌}
use vibechat.Domain.Errors.{
  Error, user_not_found, email_taken, username_taken, invalid_credentials, chat_not_found,
  not_chat_member, already_chat_member, insufficient_rights, cannot_remove_owner, message_not_found,
  not_message_author, message_deleted, invalid_token, expired_token, internal, forbidden,
  validation, driver,
}
use vibechat.Domain.User.{Uuid}

-- `r.PathValue` and `r.URL.Query().Get`, which return the empty text for a missing key.
pub record Request : Type 0 where
  pub path_value : String → String
  pub query : String → String
  pub body : String

-- What a handler writes: a body with 200 or 201, nothing with 204, "bad request" with 400, and the
-- text of an error with its status. `panicked` is a panic of the use case.
pub data Response (A : Type 0) : Type 0 where
  done created : A → Response A
  no_content bad_request unauthorized panicked : Response A
  failed : ℕ → Error → Response A

unfoldable pub status_code : Error → ℕ
status_code user_not_found = 404
status_code chat_not_found = 404
status_code message_not_found = 404
status_code invalid_credentials = 401
status_code invalid_token = 401
status_code expired_token = 401
status_code email_taken = 409
status_code username_taken = 409
status_code already_chat_member = 409
status_code not_chat_member = 403
status_code insufficient_rights = 403
status_code not_message_author = 403
status_code forbidden = 403
status_code cannot_remove_owner = 403
status_code message_deleted = 410
status_code (validation s) = 422
status_code internal = 500
status_code (driver n) = 500

-- `if err != nil { response.Err(w, r, err); return }`, and the answer otherwise.
unfoldable pub reply : {A B : Type 0} → (A → Response B) → Result A → Response B
unfolding status_code
reply f (ok a) = f a
reply f (err e) = failed (status_code e) e

module _ {S : Type 0} {A B : Type 0} where
  unfoldable pub respond : (A → Response B) → Exec S A → Exec S (Response B)
  unfolding reply
  respond f m = do r ← try m; pure (reply f r)

  -- A part of the request that may not parse.
  unfoldable pub parsed : Option A → (A → Exec S (Response B)) → Exec S (Response B)
  parsed none f = pure bad_request
  parsed (some a) f = f a

-- `queryInt`
unfoldable pub query_int : (String → Option ℤ) → String → ℤ → ℤ
query_int atoi s default =
    if str_eq s "" then default else elim (atoi s) [ none ↦ default | some v ↦ v ]
