-- ===== src/Delivery/Http/User.antt =====
-- internal/delivery/http/handler/user.go: the handlers of accounts; `caller` is whom the middleware
-- has admitted.
use vibechat.Prelude.{String, str_eq, List, Option, if◌then◌else◌, not, ℤ, pos, leb_ℤ}
use vibechat.Exec.{Exec, pure}
use vibechat.Domain.User.{Uuid, Time, User, UserRepository}
use vibechat.UseCase.User.Dto.{RegisterInput, LoginInput, UpdateProfileInput, TokenPair}
use vibechat.UseCase.User.Service
use vibechat.UseCase.User.Service.{TokenManager, PasswordHasher}
use vibechat.Delivery.Http.{
  Request, Response, done, created, bad_request, respond, parsed, query_int,
}

-- uuid.Parse, strconv.Atoi and the decoding of each body; that of `RefreshToken` gives its only field.
pub record Decoders : Type 0 where
  pub uuid : String → Option Uuid
  pub atoi : String → Option ℤ
  pub register_input : String → Option RegisterInput
  pub login_input : String → Option LoginInput
  pub refresh_token : String → Option String
  pub update_profile_input : String → Option UpdateProfileInput

-- `if in.Limit < 1 { in.Limit = 20 }`
unfoldable pub at_least_one : ℤ → ℤ
at_least_one limit = if not (leb_ℤ (pos 1) limit) then pos 20 else limit

module _ {S : Type 0} (users : UserRepository S) (hasher : PasswordHasher) (jwt : TokenManager)
    (d : Decoders) where
  unfoldable pub register : Request → Time → Uuid → Exec S (Response (User × TokenPair))
  register r now id =
      parsed (d.register_input r.body)
        λ i. respond created (Service.register users hasher jwt i now id)

  unfoldable pub login : Request → Exec S (Response (User × TokenPair))
  login r = parsed (d.login_input r.body) λ i. respond done (Service.login users hasher jwt i)

  unfoldable pub refresh_token : Request → Exec S (Response TokenPair)
  refresh_token r = parsed (d.refresh_token r.body) λ token.
      if str_eq token ""
      then pure bad_request
      else respond done (Service.refresh_token users hasher jwt token)

  unfoldable pub get_me : Uuid → Exec S (Response User)
  get_me caller = respond done (Service.get_profile users hasher jwt caller)

  unfoldable pub update_me : Uuid → Request → Time → Exec S (Response User)
  update_me caller r now =
      parsed (d.update_profile_input r.body)
        λ i. respond done (Service.update_profile users hasher jwt caller i now)

  unfoldable pub get_profile : Request → Exec S (Response User)
  get_profile r =
      parsed (d.uuid (r.path_value "user_id"))
        λ id. respond done (Service.get_profile users hasher jwt id)

  unfoldable pub search : Request → Exec S (Response (List User))
  search r = respond done (
      Service.search users hasher jwt (record {
        query = r.query "q";
        limit = at_least_one (query_int d.atoi (r.query "limit") (pos 20));
        offset = query_int d.atoi (r.query "offset") (pos 0);
      }))
