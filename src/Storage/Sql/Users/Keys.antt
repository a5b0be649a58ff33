-- ===== src/Storage/Sql/Users/Keys.antt =====
-- internal/infrastructure/storage/postgres/user.go: the key of a new row.
use vibechat.Prelude.{◌≡◌, Bool, false, none, any, arith, ◌==◌}
use vibechat.Domain.User.{Uuid, User}
use vibechat.Storage.Tables.{Db, UserRow}
use vibechat.Storage.Sql.Users.{objection, broken}

abbrev pub has_user_id : Uuid → UserRow → Bool
has_user_id k r = r.user.id == k

-- The identifier of a row that is taken in is new.
pub objection-none :
    (u : User) (d : Db) → objection u d ≡ none → any (has_user_id u.id) d.users ≡ false
unfolding objection broken
objection-none u d h = ground arith
