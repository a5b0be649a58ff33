-- ===== src/Storage/Mysql/Users.antt =====
-- internal/infrastructure/storage/mysql/user.go: the statements on `users`, with the checks and the
-- unique indexes over `active_flag` of migrations/mysql/000001_init.up.sql. A text that is NULL is
-- read as the empty text, and the empty text is stored as NULL: a row holds the text as it is read.
use Prim.Native.String.{count, ◌++◌}
use vibechat.Prelude.{
  ℕ, zero, suc, String, Bool, not, ◌&&◌, ◌||◌, List, [], ◌∷◌, Option, none, some, leb, ◌==◌, str_eq,
  is_some, if◌then◌else◌, any, find_first, where_, count_where, update_where, take, map,
}
use vibechat.Exec.{ok, Exec}
use vibechat.Domain.User.{Uuid, Time, User, UserStatus}
use vibechat.Storage.Tables.{UserRow, Db}
use vibechat.Storage.Order.{order_by}
use vibechat.Storage.Sql.Chats.{is_live_user}
use vibechat.Storage.Mysql.{dup_entry, check_violated, data_too_long}

-- `mysql.MySQLError`: a statement that MySQL rejects, or the number of the rows it changed.
pub record MysqlError : Type 0 where
  pub number : ℕ
  pub message : String

pub data Ran : Type 0 where
  rejected : MysqlError → Ran
  affected : ℕ → Ran

-- How utf8mb4_unicode_ci compares texts: which are equal, LIKE against a pattern, and the order.
pub record Collation : Type 0 where
  pub equal : String → String → Bool
  pub like : String → String → Bool
  pub before : String → String → Bool

unfoldable pub fits : User → Bool
fits u = leb (count u.username) 50 && leb (count u.email) 255 && leb (count u.bio) 500

-- `chk_users_username` and `chk_users_email`
unfoldable pub user_checks : User → Bool
user_checks u = leb 3 (count u.username) && leb (count u.username) 50 && leb 1 (count u.email)

-- A row of another account, whose `active_flag` is 1.
unfoldable pub other_active : Uuid → (User → Bool) → UserRow → Bool
other_active id same r = not (r.user.id == id) && not (is_some r.deleted_at) && same r.user

unfoldable pub duplicate : String → String → MysqlError
duplicate value key = record {
  number = dup_entry;
  message = "Duplicate entry '" ++ value ++ "' for key 'users." ++ key ++ "'";
}

module _ (c : Collation) where
  -- What MySQL objects to in a row of `u`.
  unfoldable pub broken : User → Db → Option MysqlError
  unfolding fits user_checks other_active duplicate
  broken u d =
      if not (fits u)
      then some (record { number = data_too_long; message = "Data too long" })
      else if not (user_checks u)
      then some (record { number = check_violated; message = "Check constraint is violated" })
      else if any (other_active u.id (λ v. c.equal v.email u.email)) d.users
      then some (duplicate (u.email ++ "-1") "uidx_users_email")
      else if any (other_active u.id (λ v. c.equal v.username u.username)) d.users
      then some (duplicate (u.username ++ "-1") "uidx_users_username")
      else none

  unfoldable pub insert_user : (show : Uuid → String) → User → Exec Db Ran
  unfolding broken duplicate
  insert_user show u d =
      if any (λ r. r.user.id == u.id) d.users
      then (ok (rejected (duplicate (show u.id) "PRIMARY")), d)
      else elim (broken u d) [
        | some e ↦ (ok (rejected e), d)
        | none ↦
            (ok (affected 1), record d { users = record { user = u; deleted_at = none } ∷ d.users })
      ]

  unfoldable pub select_user : Uuid → Exec Db (Option UserRow)
  unfolding is_live_user
  select_user id d = (ok (find_first (is_live_user id) d.users), d)

  -- `email = ? AND deleted_at IS NULL`, by the collation of the column.
  unfoldable pub select_by_email : String → Exec Db (Option UserRow)
  select_by_email email d =
      (ok (find_first (λ r. c.equal r.user.email email && not (is_some r.deleted_at)) d.users), d)

  unfoldable pub select_by_username : String → Exec Db (Option UserRow)
  select_by_username username d = (
    ok (find_first (λ r. c.equal r.user.username username && not (is_some r.deleted_at)) d.users),
    d,
  )

  unfoldable pub set_profile : User → UserRow → UserRow
  set_profile u r = record r {
    user = record (r.user) {
      username = u.username;
      email = u.email;
      avatar_url = u.avatar_url;
      bio = u.bio;
      updated_at = u.updated_at;
    };
  }

  -- The update gives some column another value, letter for letter.
  unfoldable pub is_changed : User → UserRow → Bool
  is_changed u r = not (
      str_eq r.user.username u.username
      && str_eq r.user.email u.email
      && str_eq r.user.avatar_url u.avatar_url
      && str_eq r.user.bio u.bio
      && r.user.updated_at == u.updated_at)

  unfoldable pub update_user : User → Exec Db Ran
  unfolding broken is_live_user set_profile is_changed
  update_user u d =
      if count_where (is_live_user u.id) d.users == 0
      then (ok (affected 0), d)
      else elim (broken u d) [
        | some e ↦ (ok (rejected e), d)
        | none ↦ (
          ok (affected (count_where (λ r. is_live_user u.id r && is_changed u r) d.users)),
          record d { users = update_where (is_live_user u.id) (set_profile u) d.users },
        )
      ]

  unfoldable pub set_status : Uuid → UserStatus → Time → Exec Db (Unit {0})
  unfolding is_live_user
  set_status id status last_seen d = (
    ok tt,
    record d {
      users =
          update_where (is_live_user id)
            (λ r. record r {
              user = record (r.user) { status = status; last_seen = last_seen; updated_at = d.now };
            })
            d.users;
    },
  )

  -- `ON UPDATE CURRENT_TIMESTAMP(6)` sets the time of the last update as well.
  unfoldable pub retire : Time → UserRow → UserRow
  retire now r = record r { deleted_at = some now; user = record (r.user) { updated_at = now } }

  unfoldable pub soft_delete_user : Uuid → Exec Db (Unit {0})
  unfolding is_live_user retire
  soft_delete_user id d =
      (ok tt, record d { users = update_where (is_live_user id) (retire d.now) d.users })

  unfoldable pub drop_rows : ℕ → List User → List User
  drop_rows zero us = us
  drop_rows (suc n) [] = []
  drop_rows (suc n) (u ∷ us) = drop_rows n us

  -- The columns of `Search`: no password hash.
  unfoldable pub public_user : UserRow → User
  public_user r = record (r.user) { password_hash = "" }

  unfoldable pub search_users : String → ℕ → ℕ → Exec Db (List User)
  unfolding order_by drop_rows public_user
  search_users query limit offset d =
      let pattern = "%" ++ query ++ "%" in
      let hits =
        where_
          (λ r.
            (c.like r.user.username pattern || c.like r.user.email pattern)
            && not (is_some r.deleted_at))
          d.users in
      let ordered = order_by (λ a b. c.before a.username b.username) (map public_user hits) in
      (ok (take limit (drop_rows offset ordered)), d)
