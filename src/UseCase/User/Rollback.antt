-- ===== src/UseCase/User/Rollback.antt =====
-- internal/usecase/user/user.go, `Register`: an account without tokens is deleted again.
use vibechat.Prelude.{
  ◌≡◌, refl, String, true, false, List, [], ◌∷◌, none, some, find_first, update_where, any, arith,
  Bool-cases, Option-cases, inl, inr, ◌⊎◌, ◌==◌, str_eq,
}
use vibechat.Exec.{ok, err, ◌>>=◌}
use vibechat.Domain.Errors.{Error, email_taken, username_taken, driver}
use vibechat.Domain.User.{Uuid, User}
use vibechat.Storage.Tables.{Db, UserRow, unique_violation}
use vibechat.Storage.Connection.{tables}
use vibechat.Storage.Postgres.User
use vibechat.Storage.Postgres.User.{user_repository, map_user_constraint_err, created}
use vibechat.Storage.Sql.Chats.{is_live_user}
use vibechat.Storage.Sql.Users.{
  Collation, PgError, has_email, has_username, insert_user, objection, soft_delete_user,
}
use vibechat.Storage.Sql.Users.Keys.{has_user_id, objection-none}

-- The lookups of live accounts find in `d` what they find in `b`.
pub record SameAccounts (b d : Db) : Type 0 where
  pub by_id : (k : Uuid) → find_first (is_live_user k) d.users ≡ find_first (is_live_user k) b.users
  pub by_email : (e : String) → find_first (has_email e) d.users ≡ find_first (has_email e) b.users
  pub by_username :
      (n : String) → find_first (has_username n) d.users ≡ find_first (has_username n) b.users

-- A deletion of an account that is not there.
delete-absent :
    (k : Uuid) (f : UserRow → UserRow) (rs : List UserRow)
    → any (has_user_id k) rs ≡ false
    → update_where (is_live_user k) f rs ≡ rs
unfolding is_live_user
delete-absent k f [] h = refl
delete-absent k f (r ∷ rs) h = ground (arith, delete-absent k f rs)

abbrev pub added : User → Db → Db
added u d = record d { users = record { user = u; deleted_at = none } ∷ d.users }

constraint_err : (e : PgError) → (x : Error) × (map_user_constraint_err e ≡ err x)
unfolding map_user_constraint_err
constraint_err e = elim (Bool-cases (e.code == unique_violation)) [
  | inr c ↦ (driver e.code, rw c refl)
  | inl c ↦ elim (Bool-cases (str_eq e.constraint_name "uidx_users_email")) [
    | inl m ↦ (email_taken, rw (c, m) refl)
    | inr m ↦ elim (Bool-cases (str_eq e.constraint_name "uidx_users_username")) [
      | inl n ↦ (username_taken, rw (c, m, n) refl)
      | inr n ↦ (driver e.code, rw (c, m, n) refl)
    ]
  ]
]

module _ (col : Collation) where
  -- A row is added, of a new identifier, or nothing happens.
  pub create-cases :
      (u : User) (d : Db)
      → ((x : Error) × (User.create tables col u d ≡ (err x, d)))
        ⊎ ((any (has_user_id u.id) d.users ≡ false)
            × (User.create tables col u d ≡ (ok tt, added u d)))
  unfolding User.create insert_user created ◌>>=◌
  create-cases u d = elim (Option-cases (objection u d)) [
    | inl n ↦ inr (objection-none u d n, rw (insert_user, n) refl)
    | inr (b, n) ↦ inl (let (x, m) = constraint_err b in (x, rw (insert_user, n, m) refl))
  ]

  pub new_is_live : (u : User) → is_live_user u.id (record { user = u; deleted_at = none }) ≡ true
  unfolding is_live_user
  new_is_live u = ground arith

  -- What is left of an account that is added and deleted again.
  pub added_and_deleted :
      (u : User) (d : Db)
      → any (has_user_id u.id) d.users ≡ false
      → (soft_delete_user u.id (added u d)).1
        ≡ record d { users = record { user = u; deleted_at = some d.now } ∷ d.users }
  unfolding soft_delete_user
  added_and_deleted u d fresh =
      rw
        (
          new_is_live u,
          delete-absent u.id (λ r. record r { deleted_at = some d.now }) d.users fresh,
        )
        refl

  pub SameAccounts-deleted :
      (u : User) (b d : Db)
      → SameAccounts b d
      → SameAccounts b (record d { users = record { user = u; deleted_at = some d.now } ∷ d.users })
  unfolding is_live_user has_email has_username
  SameAccounts-deleted u b d same = record {
    by_id = λ k. ground (arith, same.by_id k);
    by_email = λ e. ground (arith, same.by_email e);
    by_username = λ n. ground (arith, same.by_username n);
  }
