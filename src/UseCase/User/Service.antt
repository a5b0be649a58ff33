-- ===== src/UseCase/User/Service.antt =====
-- internal/usecase/user/user.go: the service over any repository of users. The token manager and
-- the hasher are what their methods return at the time of the request; the last arguments of an
-- operation are what time.Now() and uuid.New() return.
use vibechat.Prelude.{String, Bool, List, Option, none, some, ◌==◌, str_eq, if◌then◌else◌, to_ℕ}
use vibechat.Exec.{Result, ok, err, Exec, pure, raise, lift, try, guard, ◌>>=◌, ◌>>◌}
use vibechat.Domain.Errors.{
  Error, user_not_found, email_taken, username_taken, invalid_credentials, internal,
}
use vibechat.Domain.User.{Uuid, Time, User, UserRepository, online, offline}
use vibechat.UseCase.User.Dto.{
  RegisterInput, LoginInput, UpdateProfileInput, SearchInput, TokenPair, validate_register,
  validate_login, validate_update_profile, validate_search,
}

pub record TokenManager : Type 0 where
  pub generate_access_token : Uuid → Result String
  pub generate_refresh_token : Uuid → Result String
  pub validate_refresh_token : String → Result Uuid

pub record PasswordHasher : Type 0 where
  pub hash : String → Result String
  pub matches : String → String → Bool

-- Any failure of a signature or a hash is `ErrInternal`.
or_internal : {A : Type 0} → Result A → Result A
or_internal (ok a) = ok a
or_internal (err e) = err internal

unfoldable pub issue_tokens : TokenManager → Uuid → Result TokenPair
unfolding or_internal
issue_tokens jwt user_id = elim (or_internal (jwt.generate_access_token user_id)) [
  | err e ↦ err e
  | ok access ↦ elim (or_internal (jwt.generate_refresh_token user_id)) [
    | err e ↦ err e
    | ok refresh ↦ ok (record { access_token = access; refresh_token = refresh })
  ]
]

-- The search for another account with the same value: only `ErrUserNotFound` lets the request go on.
unfoldable pub refuse_taken : Error → Result User → Result (Unit {0})
refuse_taken taken (ok u) = err taken
refuse_taken taken (err user_not_found) = ok tt
refuse_taken taken (err e) = err e

unfoldable pub new_user : Uuid → RegisterInput → String → Time → User
new_user id i hash now = record {
  id = id;
  username = i.username;
  email = i.email;
  password_hash = hash;
  avatar_url = "";
  bio = "";
  status = offline;
  last_seen = now;
  created_at = now;
  updated_at = now;
}

-- An account that is not there is reported as wrong credentials.
unfoldable pub hide_unknown : Result User → Result User
hide_unknown (err user_not_found) = err invalid_credentials
hide_unknown r = r

-- Whether the account that has the new name is another one.
unfoldable pub refuse_other : Uuid → Result User → Result (Unit {0})
refuse_other id (ok u) = if u.id == id then ok tt else err username_taken
refuse_other id (err user_not_found) = ok tt
refuse_other id (err e) = err e

or_else : Option String → String → String
or_else none old = old
or_else (some s) old = s

unfoldable pub edited_profile : User → UpdateProfileInput → Time → User
unfolding or_else
edited_profile u i now = record u {
  username = or_else i.username u.username;
  bio = or_else i.bio u.bio;
  avatar_url = or_else i.avatar_url u.avatar_url;
  updated_at = now;
}

module _ {S : Type 0} (users : UserRepository S) (hasher : PasswordHasher)
    (jwt : TokenManager) where
  -- The account is deleted again, whatever the deletion returns, if there are no tokens for it.
  unfoldable pub or_roll_back : User → Result TokenPair → Exec S (User × TokenPair)
  or_roll_back u (ok tokens) = pure (u, tokens)
  or_roll_back u (err e) = do _ ← try (users.delete u.id); raise e

  unfoldable pub register : RegisterInput → Time → Uuid → Exec S (User × TokenPair)
  unfolding refuse_taken or_internal new_user or_roll_back issue_tokens
  register i now id = do
    lift (validate_register i)
    by_email ← try (users.get_by_email i.email)
    lift (refuse_taken email_taken by_email)
    by_username ← try (users.get_by_username i.username)
    lift (refuse_taken username_taken by_username)
    hash ← lift (or_internal (hasher.hash i.password))
    users.create (new_user id i hash now)
    or_roll_back (new_user id i hash now) (issue_tokens jwt id)

  unfoldable pub login : LoginInput → Exec S (User × TokenPair)
  unfolding hide_unknown issue_tokens
  login i = do
    lift (validate_login i)
    found ← try (users.get_by_email i.email)
    u ← lift (hide_unknown found)
    guard (hasher.matches i.password u.password_hash) invalid_credentials
    tokens ← lift (issue_tokens jwt u.id)
    pure (u, tokens)

  unfoldable pub refresh_token : String → Exec S TokenPair
  unfolding issue_tokens
  refresh_token token = do
    user_id ← lift (jwt.validate_refresh_token token)
    _ ← users.get_by_id user_id
    lift (issue_tokens jwt user_id)

  unfoldable pub get_profile : Uuid → Exec S User
  get_profile id = users.get_by_id id

  -- A new name must be free.
  unfoldable pub check_username_free : Uuid → User → Option String → Exec S (Unit {0})
  unfolding refuse_other
  check_username_free id u none = pure tt
  check_username_free id u (some name) =
      if str_eq name u.username
      then pure tt
      else (try (users.get_by_username name) >>= λ x. lift (refuse_other id x))

  unfoldable pub update_profile : Uuid → UpdateProfileInput → Time → Exec S User
  unfolding check_username_free edited_profile
  update_profile id i now = do
    lift (validate_update_profile i)
    u ← users.get_by_id id
    check_username_free id u i.username
    users.update (edited_profile u i now)
    pure (edited_profile u i now)

  unfoldable pub search : SearchInput → Exec S (List User)
  search i = do lift (validate_search i); users.search i.query (to_ℕ i.limit) (to_ℕ i.offset)

  unfoldable pub set_online : Uuid → Time → Exec S (Unit {0})
  set_online id now = users.update_status id online now

  unfoldable pub set_offline : Uuid → Time → Exec S (Unit {0})
  set_offline id now = users.update_status id offline now
