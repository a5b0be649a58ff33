-- ===== src/UseCase/User/Dto.antt =====
-- internal/usecase/user/dto.go: the inputs of the service and their validation.
use vibechat.Prelude.{String, Option, none, some, ℤ, pos, leb_ℤ}
use vibechat.Exec.{Result}
use vibechat.Validate.{
  V, new, check, result, min_len, max_len, is_alphanumeric, is_email, is_url, non_empty, in_range,
}

pub record RegisterInput : Type 0 where
  pub username : String
  pub email : String
  pub password : String

check_username : String → V → V
unfolding check
check_username s v =
    let v' = check v (min_len s 3) "username must be at least 3 characters" in
    let v'' = check v' (max_len s 50) "username must be at most 50 characters" in
    check v'' (is_alphanumeric s) "username must contain only letters and digits"

unfoldable pub validate_register : RegisterInput → Result (Unit {0})
unfolding check result check_username
validate_register i =
    let v = check (check_username i.username new) (is_email i.email) "invalid email address" in
    let v' = check v (min_len i.password 8) "password must be at least 8 characters" in
    result (check v' (max_len i.password 72) "password must be at most 72 characters")

pub record LoginInput : Type 0 where
  pub email : String
  pub password : String

unfoldable pub validate_login : LoginInput → Result (Unit {0})
unfolding check result
validate_login i = result (
    check (check new (non_empty i.email) "email is required") (non_empty i.password)
      "password is required")

-- No value leaves the column unchanged.
pub record UpdateProfileInput : Type 0 where
  pub username : Option String
  pub bio : Option String
  pub avatar_url : Option String

on_some : (String → V → V) → Option String → V → V
on_some f none v = v
on_some f (some s) v = f s v

unfoldable pub validate_update_profile : UpdateProfileInput → Result (Unit {0})
unfolding check result check_username on_some
validate_update_profile i =
    let v = on_some check_username i.username new in
    let v' =
      on_some (λ s w. check w (max_len s 500) "bio must be at most 500 characters") i.bio v in
    result (
      on_some (λ s w. check w (is_url s) "avatar_url must be a valid HTTP/HTTPS URL") i.avatar_url
        v')

pub record SearchInput : Type 0 where
  pub query : String
  pub limit : ℤ
  pub offset : ℤ

unfoldable pub validate_search : SearchInput → Result (Unit {0})
unfolding check result in_range
validate_search i =
    let v = check new (non_empty i.query) "query is required" in
    let v' = check v (in_range i.limit (pos 1) (pos 100)) "limit must be between 1 and 100" in
    result (check v' (leb_ℤ (pos 0) i.offset) "offset must be non-negative")

pub record TokenPair : Type 0 where
  pub access_token : String
  pub refresh_token : String
