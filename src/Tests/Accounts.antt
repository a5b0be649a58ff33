-- ===== src/Tests/Accounts.antt =====
-- The theorems about accounts, on those of `Data`.
use vibechat.Prelude.{◌≡◌, ◌⊎◌, if◌then◌else◌, ◌==◌, refl, true, none, some, find_first}
use vibechat.Exec.{ok, err}
use vibechat.Domain.Errors.{internal}
use vibechat.Storage.Connection.{World, tables, remote}
use vibechat.Storage.Postgres.User.{user_repository}
use vibechat.Storage.Sql.Users.{has_email}
use vibechat.UseCase.User.Dto.{RegisterInput, LoginInput, UpdateProfileInput, validate_login}
use vibechat.UseCase.User.Service.{
  TokenManager, PasswordHasher, issue_tokens, login, register, update_profile,
}
use vibechat.UseCase.User.Laws
use vibechat.UseCase.User.Laws.{answer, when_valid, secrets}
use vibechat.UseCase.User.Faults
use vibechat.UseCase.User.Faults.{Undeleted}
use vibechat.UseCase.User.Rollback.{SameAccounts}
use vibechat.Tests.Data.{col, db}

abbrev hasher : PasswordHasher
hasher = record { hash = λ s. ok s; matches = λ p h. true }

-- A manager that cannot sign.
abbrev broken_jwt : TokenManager
broken_jwt = record {
  generate_access_token = λ id. err internal;
  generate_refresh_token = λ id. err internal;
  validate_refresh_token = λ s. err internal;
}

abbrev ann : LoginInput
ann = record { email = "ann@example.com"; password = "correct horse" }

login_exact_example : login (user_repository tables col) hasher broken_jwt ann db ≡ (
  when_valid (validate_login ann) (
      answer hasher broken_jwt "correct horse" (find_first (has_email "ann@example.com") db.users)),
  db,
)
login_exact_example = Laws.login_exact col hasher broken_jwt ann db

abbrev renamed : UpdateProfileInput
renamed = record { username = some "anna"; bio = none; avatar_url = none }

update_profile-secrets_example :
    secrets (update_profile (user_repository tables col) hasher broken_jwt 1 renamed 9 db).1.users
    ≡ secrets db.users
update_profile-secrets_example = Laws.update_profile-secrets col hasher broken_jwt 1 renamed 9 db

abbrev eve : RegisterInput
eve = record { username = "eve"; email = "eve@example.com"; password = "correct horse" }

no_tokens : issue_tokens broken_jwt 5 ≡ err internal
unfolding issue_tokens
no_tokens = refl

-- The deletion is the statement that fails.
abbrev broken_line : World
broken_line = record { db = db; sent = 0; faults = λ n. if n == 3 then some 7 else none }

register_without_tokens_example :
    let w = (register (user_repository remote col) hasher broken_jwt eve 9 5 broken_line).1 in
    SameAccounts db w.db ⊎ Undeleted 5 w
register_without_tokens_example =
    Faults.register_without_tokens col hasher broken_jwt eve 9 5 broken_line no_tokens
