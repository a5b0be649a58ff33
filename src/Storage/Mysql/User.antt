-- ===== src/Storage/Mysql/User.antt =====
-- internal/infrastructure/storage/mysql/user.go: the repository of users over a handle.
use text.Mathlib.Text.{find?}
use vibechat.Prelude.{ℕ, String, Bool, List, Option, none, some, is_some, if◌then◌else◌, ◌==◌}
use vibechat.Exec.{Result, ok, err, Exec, lift, ◌>>=◌}
use vibechat.Domain.Errors.{driver, user_not_found, email_taken, username_taken}
use vibechat.Domain.User.{Uuid, Time, User, UserStatus, UserRepository}
use vibechat.Storage.Tables.{UserRow}
use vibechat.Storage.Connection.{Connection}
use vibechat.Storage.Mysql.{dup_entry}
use vibechat.Storage.Mysql.Users.{
  MysqlError, Ran, rejected, affected, Collation, insert_user, select_user, select_by_email,
  select_by_username, update_user, set_status, soft_delete_user, search_users,
}

-- `strings.Contains`
unfoldable pub contains : String → String → Bool
contains s t = is_some (find? s t)

unfoldable pub map_user_constraint_err : MysqlError → Result (Unit {0})
unfolding contains
map_user_constraint_err e =
    if e.number == dup_entry
    then (if contains e.message "uidx_users_email"
        then err email_taken
        else if contains e.message "uidx_users_username"
        then err username_taken
        else err (driver e.number))
    else err (driver e.number)

unfoldable pub created : Ran → Result (Unit {0})
unfolding map_user_constraint_err
created (rejected e) = map_user_constraint_err e
created (affected n) = ok tt

unfoldable pub updated : Ran → Result (Unit {0})
unfolding map_user_constraint_err
updated (rejected e) = map_user_constraint_err e
updated (affected n) = if n == 0 then err user_not_found else ok tt

unfoldable pub scan_one : Option UserRow → Result User
scan_one none = err user_not_found
scan_one (some r) = ok r.user

module _ {S : Type 0} (conn : Connection S) (c : Collation) (show : Uuid → String) where
  unfoldable pub create : User → Exec S (Unit {0})
  unfolding created
  create u = do ran ← conn.exec Ran (insert_user c show u); lift (created ran)

  unfoldable pub get_by_id : Uuid → Exec S User
  unfolding scan_one
  get_by_id id = do row ← conn.exec _ (select_user c id); lift (scan_one row)

  unfoldable pub get_by_email : String → Exec S User
  unfolding scan_one
  get_by_email email = do row ← conn.exec _ (select_by_email c email); lift (scan_one row)

  unfoldable pub get_by_username : String → Exec S User
  unfolding scan_one
  get_by_username username = do
    row ← conn.exec _ (select_by_username c username)
    lift (scan_one row)

  unfoldable pub update : User → Exec S (Unit {0})
  unfolding updated
  update u = do ran ← conn.exec Ran (update_user c u); lift (updated ran)

  unfoldable pub update_status : Uuid → UserStatus → Time → Exec S (Unit {0})
  update_status id status last_seen = conn.exec Unit (set_status c id status last_seen)

  unfoldable pub search : String → ℕ → ℕ → Exec S (List User)
  search query limit offset = conn.exec _ (search_users c query limit offset)

  unfoldable pub delete : Uuid → Exec S (Unit {0})
  delete id = conn.exec Unit (soft_delete_user c id)

  -- `NewUserRepository`
  abbrev pub user_repository : UserRepository S
  user_repository = record {
    create = create;
    get_by_id = get_by_id;
    get_by_email = get_by_email;
    get_by_username = get_by_username;
    update = update;
    update_status = update_status;
    search = search;
    delete = delete;
  }
