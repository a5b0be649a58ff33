-- ===== src/Storage/Postgres/User.antt =====
-- internal/infrastructure/storage/postgres/user.go: the repository of users over a handle.
use vibechat.Prelude.{ℕ, String, List, Option, none, some, if◌then◌else◌, ◌==◌, str_eq}
use vibechat.Exec.{Result, ok, err, Exec, lift, ◌>>=◌}
use vibechat.Domain.Errors.{driver, user_not_found, email_taken, username_taken}
use vibechat.Domain.User.{Uuid, Time, User, UserStatus, UserRepository}
use vibechat.Storage.Tables.{UserRow, unique_violation}
use vibechat.Storage.Connection.{Connection}
use vibechat.Storage.Sql.Users.{
  PgError, Ran, rejected, affected, Collation, insert_user, select_user, select_by_email,
  select_by_username, update_user, set_status, soft_delete_user, search_users,
}

-- Unique violations become errors of the domain, the others pass.
unfoldable pub map_user_constraint_err : PgError → Result (Unit {0})
map_user_constraint_err e =
    if e.code == unique_violation
    then (if str_eq e.constraint_name "uidx_users_email"
        then err email_taken
        else if str_eq e.constraint_name "uidx_users_username"
        then err username_taken
        else err (driver e.code))
    else err (driver e.code)

unfoldable pub created : Ran → Result (Unit {0})
unfolding map_user_constraint_err
created (rejected e) = map_user_constraint_err e
created (affected n) = ok tt

unfoldable pub updated : Ran → Result (Unit {0})
unfolding map_user_constraint_err
updated (rejected e) = map_user_constraint_err e
updated (affected n) = if n == 0 then err user_not_found else ok tt

-- `scanOne`: no row is `ErrUserNotFound`.
unfoldable pub scan_one : Option UserRow → Result User
scan_one none = err user_not_found
scan_one (some r) = ok r.user

module _ {S : Type 0} (conn : Connection S) (collation : Collation) where
  unfoldable pub create : User → Exec S (Unit {0})
  unfolding created
  create u = do ran ← conn.exec Ran (insert_user u); lift (created ran)

  unfoldable pub get_by_id : Uuid → Exec S User
  unfolding scan_one
  get_by_id id = do row ← conn.exec _ (select_user id); lift (scan_one row)

  unfoldable pub get_by_email : String → Exec S User
  unfolding scan_one
  get_by_email email = do row ← conn.exec _ (select_by_email email); lift (scan_one row)

  unfoldable pub get_by_username : String → Exec S User
  unfolding scan_one
  get_by_username username = do row ← conn.exec _ (select_by_username username); lift (scan_one row)

  unfoldable pub update : User → Exec S (Unit {0})
  unfolding updated
  update u = do ran ← conn.exec Ran (update_user u); lift (updated ran)

  unfoldable pub update_status : Uuid → UserStatus → Time → Exec S (Unit {0})
  update_status id status last_seen = do
    _ ← conn.exec ℕ (set_status id status last_seen)
    lift (ok tt)

  unfoldable pub search : String → ℕ → ℕ → Exec S (List User)
  search query limit offset = conn.exec _ (search_users collation query limit offset)

  unfoldable pub delete : Uuid → Exec S (Unit {0})
  delete id = do _ ← conn.exec ℕ (soft_delete_user id); lift (ok tt)

  -- `NewUserRepository`
  abbrev pub user_repository : UserRepository S
  user_repository = record {
    create = create;
    get_by_id = get_by_id;
    get_by_email = get_by_email;
    get_by_username = get_by_username;
    update = update;
    update_status = update_status;
    search = search;
    delete = delete;
  }
