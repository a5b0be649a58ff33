-- ===== src/Storage/Sql/Users.antt =====
-- internal/infrastructure/storage/postgres/user.go: the statements on `users`, with the constraints
-- and the partial unique indexes of migrations/postgres/000001_init.up.sql.
pub mod Keys
use Prim.Native.String.{count, ◌++◌}
use vibechat.Prelude.{
  ℕ, zero, suc, String, Bool, not, ◌&&◌, ◌||◌, List, [], ◌∷◌, Option, none, some, leb, ◌==◌, str_eq,
  is_some, if◌then◌else◌, any, find_first, where_, count_where, update_where, take, map,
}
use vibechat.Exec.{ok, Exec}
use vibechat.Domain.User.{Uuid, Time, User, UserStatus}
use vibechat.Storage.Tables.{UserRow, Db, unique_violation, check_violation, string_too_long}
use vibechat.Storage.Order.{order_by}
use vibechat.Storage.Sql.Chats.{is_live_user}
use vibechat.Validate.{is_alphanumeric}

-- `pgconn.PgError`: a statement that a constraint rejects, or the number of the rows it affected.
pub record PgError : Type 0 where
  pub code : ℕ
  pub constraint_name : String

pub data Ran : Type 0 where
  rejected : PgError → Ran
  affected : ℕ → Ran

-- How the database compares texts: ILIKE against a pattern, and the order of its collation.
pub record Collation : Type 0 where
  pub ilike : String → String → Bool
  pub before : String → String → Bool

unfoldable pub user_checks : User → Bool
unfolding is_alphanumeric
user_checks u =
    leb 3 (count u.username)
    && leb (count u.username) 50
    && is_alphanumeric u.username
    && leb 1 (count u.email)

unfoldable pub user_fits : User → Bool
user_fits u = leb (count u.username) 50 && leb (count u.email) 255 && leb (count u.bio) 500

-- A live row of another account with the same value.
unfoldable pub other_live : Uuid → (User → Bool) → UserRow → Bool
other_live id same r = not (r.user.id == id) && not (is_some r.deleted_at) && same r.user

-- What a row of `u` would break: the lengths, the checks, and then the indexes in their order.
unfoldable pub broken : User → Db → Option PgError
unfolding user_fits user_checks other_live
broken u d =
    if not (user_fits u)
    then some (record { code = string_too_long; constraint_name = "" })
    else if not (user_checks u)
    then some (record { code = check_violation; constraint_name = "chk_users" })
    else if any (other_live u.id (λ v. str_eq v.email u.email)) d.users
    then some (record { code = unique_violation; constraint_name = "uidx_users_email" })
    else if any (other_live u.id (λ v. str_eq v.username u.username)) d.users
    then some (record { code = unique_violation; constraint_name = "uidx_users_username" })
    else none

-- What PostgreSQL objects to in a new row of `u`: the key of an account comes after the checks.
unfoldable pub objection : User → Db → Option PgError
unfolding broken user_fits user_checks
objection u d =
    if user_fits u && user_checks u && any (λ r. r.user.id == u.id) d.users
    then some (record { code = unique_violation; constraint_name = "users_pkey" })
    else broken u d

unfoldable pub insert_user : User → Exec Db Ran
unfolding objection
insert_user u d = elim (objection u d) [
  | some e ↦ (ok (rejected e), d)
  | none ↦ (ok (affected 1), record d { users = record { user = u; deleted_at = none } ∷ d.users })
]

unfoldable pub select_user : Uuid → Exec Db (Option UserRow)
unfolding is_live_user
select_user id d = (ok (find_first (is_live_user id) d.users), d)

-- `email = $1 AND deleted_at IS NULL`
unfoldable pub has_email : String → UserRow → Bool
has_email email r = str_eq r.user.email email && not (is_some r.deleted_at)

unfoldable pub has_username : String → UserRow → Bool
has_username username r = str_eq r.user.username username && not (is_some r.deleted_at)

unfoldable pub select_by_email : String → Exec Db (Option UserRow)
unfolding has_email
select_by_email email d = (ok (find_first (has_email email) d.users), d)

unfoldable pub select_by_username : String → Exec Db (Option UserRow)
unfolding has_username
select_by_username username d = (ok (find_first (has_username username) d.users), d)

-- The columns that `Update` sets; the password hash, the status and the times of a row stay.
unfoldable pub set_profile : User → UserRow → UserRow
set_profile u r = record r {
  user = record (r.user) {
    username = u.username;
    email = u.email;
    avatar_url = u.avatar_url;
    bio = u.bio;
    updated_at = u.updated_at;
  };
}

unfoldable pub update_user : User → Exec Db Ran
unfolding broken is_live_user set_profile
update_user u d =
    let n = count_where (is_live_user u.id) d.users in
    if n == 0 then (ok (affected 0), d) else elim (broken u d) [
      | some e ↦ (ok (rejected e), d)
      | none ↦ (
        ok (affected n),
        record d { users = update_where (is_live_user u.id) (set_profile u) d.users },
      )
    ]

unfoldable pub set_status : Uuid → UserStatus → Time → Exec Db ℕ
unfolding is_live_user
set_status id status last_seen d = (
  ok (count_where (is_live_user id) d.users),
  record d {
    users =
        update_where (is_live_user id)
          (λ r. record r {
            user = record (r.user) { status = status; last_seen = last_seen; updated_at = d.now };
          })
          d.users;
  },
)

unfoldable pub soft_delete_user : Uuid → Exec Db ℕ
unfolding is_live_user
soft_delete_user id d = (
  ok (count_where (is_live_user id) d.users),
  record d {
    users = update_where (is_live_user id) (λ r. record r { deleted_at = some d.now }) d.users;
  },
)

drop_rows : ℕ → List User → List User
drop_rows zero us = us
drop_rows (suc n) [] = []
drop_rows (suc n) (u ∷ us) = drop_rows n us

-- `scanUsersPublic` reads no password hash.
public_user : UserRow → User
public_user r = record (r.user) { password_hash = "" }

-- `username ILIKE '%' || $1 || '%' OR email ILIKE …`, in the order of the names.
unfoldable pub search_users : Collation → String → ℕ → ℕ → Exec Db (List User)
unfolding order_by drop_rows public_user
search_users c query limit offset d =
    let pattern = "%" ++ query ++ "%" in
    let hits =
      where_
        (λ r.
          (c.ilike r.user.username pattern || c.ilike r.user.email pattern)
          && not (is_some r.deleted_at))
        d.users in
    let ordered = order_by (λ a b. c.before a.username b.username) (map public_user hits) in
    (ok (take limit (drop_rows offset ordered)), d)
