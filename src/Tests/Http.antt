-- ===== src/Tests/Http.antt =====
-- The theorems about the handlers, over the tables of `Data`.
use Prim.Native.String.{char_at}
use vibechat.Prelude.{
  ℕ, List, [], ◌∷◌, any, false, String, ◌≡◌, refl, ap, ◌∙◌, Bool, Option, none, some, ℤ, pos,
  str_eq, true, if◌then◌else◌,
}
use vibechat.Exec.{Result, ok, err, Exec, pure}
use vibechat.Domain.User.{Uuid}
use vibechat.Domain.Errors.{invalid_token}
use vibechat.Storage.Connection.{tables}
use vibechat.Storage.Tables.{Db}
use vibechat.Storage.Postgres.Chat.{chat_repository}
use vibechat.Storage.Postgres.User.{user_repository}
use vibechat.Storage.Postgres.Message.{message_repository}
use vibechat.UseCase.User.Service.{TokenManager, PasswordHasher}
use vibechat.Delivery.Http.{Request, Response, unauthorized}
use vibechat.Delivery.Http.Auth.{auth, split_blank}
use vibechat.Delivery.Http.Admission
use vibechat.Delivery.Http.Admission.{Granted, no_blank}
use vibechat.Delivery.Http.Answers
use vibechat.Delivery.Http.Answers.{MessagesAnswer, ChatsAnswer, UsersAnswer}
use vibechat.Delivery.Http.History
use vibechat.Delivery.Http.Chat
use vibechat.Delivery.Http.User
use vibechat.Delivery.Http.Message
use vibechat.Delivery.Http.Cors
use vibechat.Delivery.Http.Cors.{Headers, cors, allow_all, set}
use vibechat.Tests.Data.{col}

abbrev hasher : PasswordHasher
hasher = record { hash = λ s. ok s; matches = λ p h. str_eq p h }

abbrev jwt : TokenManager
jwt = record {
  generate_access_token = λ id. ok "access";
  generate_refresh_token = λ id. ok "refresh";
  validate_refresh_token = λ t. err invalid_token;
}

-- The path names chat 10 and account 3, and the query asks for no messages at all.
abbrev request : Request
request = record {
  path_value = λ key. if str_eq key "chat_id" then "10" else "3";
  query = λ key. if str_eq key "limit" then "0" else "";
  body = "{}";
}

abbrev number : String → Option Uuid
number s = if str_eq s "10" then some 10 else if str_eq s "3" then some 3 else none

abbrev atoi : String → Option ℤ
atoi s = if str_eq s "0" then some (pos 0) else none

abbrev message_decoders : Message.Decoders
message_decoders = record {
  uuid = number;
  time = λ s. none;
  atoi = atoi;
  send_body = λ s. some (record { content = "hi"; type = ""; reply_to_id = some 0 });
  edit_input = λ s. some (record { content = "hi" });
  react_input = λ s. some (record { emoji = "+1" });
}

abbrev chat_decoders : Chat.Decoders
chat_decoders = record {
  uuid = number;
  create_direct_input = λ s. some (record { target_user_id = 3 });
  create_group_input = λ s. none;
  update_group_input = λ s. none;
  add_member_input = λ s. some (record { user_id = 4 });
  change_member_role_input = λ s. some (record { user_id = 0; role = "admin" });
}

abbrev user_decoders : User.Decoders
user_decoders = record {
  uuid = number;
  atoi = atoi;
  register_input = λ s. none;
  login_input = λ s. none;
  refresh_token = λ s. some "";
  update_profile_input = λ s. none;
}

handlers-Answer_example :
    MessagesAnswer
      (message_repository tables col)
      (chat_repository tables)
      message_decoders
      1
      request
      9
      30
    × ChatsAnswer (chat_repository tables) (user_repository tables col) chat_decoders 1 request 9 30
    × UsersAnswer (user_repository tables col) hasher jwt user_decoders 1 request 9 30
handlers-Answer_example =
    Answers.handlers-Answer (message_repository tables col) (chat_repository tables)
      (user_repository tables col) hasher jwt message_decoders chat_decoders user_decoders 1 request
      9 30

abbrev equal_fold : String → String → Bool
equal_fold s t = if str_eq s "Bearer" then str_eq t "bearer" else str_eq s t

abbrev validate : String → Result Uuid
validate t = if str_eq t "abc" then ok 1 else err invalid_token

abbrev leave : Uuid → Exec Db (Response (Unit {0}))
leave caller =
    Chat.leave_chat (chat_repository tables) (user_repository tables col) chat_decoders caller
      request

bearer-Granted : Granted equal_fold validate "Bearer abc" 1
unfolding no_blank
bearer-Granted = record {
  scheme = "Bearer";
  token = "abc";
  written = record { blank = char_at " " 0; is_blank = refl; first = refl; written = refl };
  is_bearer = refl;
  valid = refl;
}

auth-Granted_example : auth equal_fold validate "Bearer abc" leave ≡ leave 1
auth-Granted_example =
    Admission.auth-Granted equal_fold validate leave "Bearer abc" 1 bearer-Granted

basic-refused : (id : Uuid) → ¬ Granted equal_fold validate "Basic abc" id
unfolding split_blank
basic-refused id g =
    let e : split_blank "Basic abc" ≡ some (g.scheme, g.token) =
      Admission.Written-split_blank "Basic abc" g.scheme g.token g.written in
    let s : "Basic" ≡ g.scheme = cc in
    let b : equal_fold "Basic" "bearer" ≡ true = ap (λ x. equal_fold x "bearer") s ∙ g.is_bearer in
    absurd (cc)

auth_refused_example : auth equal_fold validate "Basic abc" leave ≡ pure unauthorized
auth_refused_example = Admission.auth_refused equal_fold validate leave "Basic abc" basic-refused

abbrev origins : List String
origins = "https://a.example" ∷ "https://b.example" ∷ []

abbrev serve : Headers → ℕ × Headers
serve h = (200, h)

cors-credentials_example :
    ((cors equal_fold origins "GET" "https://b.example" serve (λ k. [])).1
        "Access-Control-Allow-Origin"
      ≡ "https://b.example" ∷ [])
    × (any (λ o. equal_fold o "https://b.example") origins ≡ true)
    × (allow_all origins ≡ false)
unfolding cors set
cors-credentials_example =
    Cors.cors-credentials equal_fold origins "GET" "https://b.example" serve (λ k. []) refl
      (λ h. refl) (λ h. refl) (λ z. absurd (cc))
