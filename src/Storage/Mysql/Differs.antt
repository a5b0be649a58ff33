-- ===== src/Storage/Mysql/Differs.antt =====
-- internal/infrastructure/storage/mysql/chat.go: where the counts of MySQL make a write return another
-- error than the same write in PostgreSQL.
use vibechat.Prelude.{
  ◌≡◌, refl, Bool, not, ◌&&◌, List, [], ◌∷◌, arith, ◌==◌, any, count_where, if◌then◌else◌,
}
use vibechat.Exec.{ok, err, ◌>>=◌}
use vibechat.Domain.Errors.{not_chat_member, already_chat_member}
use vibechat.Domain.User.{Uuid}
use vibechat.Domain.Chat.{ChatMember, MemberRole}
use vibechat.Storage.Tables.{Db}
use vibechat.Storage.Connection.{tables}
use vibechat.Storage.Sql.Chats
use vibechat.Storage.Sql.Chats.{is_row_of, has_member, has_chat, has_user}
use vibechat.Storage.Postgres.Chat as Postgres
use vibechat.Storage.Mysql.Chat
use vibechat.Storage.Mysql.Chats as Mysql
use vibechat.Storage.Mysql.Chats.{same_role}

count-any {ℓ} : {A : Type ℓ} (p : A → Bool) (xs : List A) → (count_where p xs == 0) ≡ not (any p xs)
count-any p [] = refl
count-any p (x ∷ xs) = ground (arith, count-any p xs)

-- Setting a role leaves the same tables in both databases. PostgreSQL returns no error where the
-- member is there, and MySQL where the member is there with another role: to give a member the role
-- that it has already is refused as if there was no member.
pub update_member_role_differs :
    (c u : Uuid) (role : MemberRole) (d : Db)
    → ((Chat.update_member_role tables c u role d).1
        ≡ (Postgres.update_member_role tables c u role d).1)
      × ((Chat.update_member_role tables c u role d).0 ≡ (
          if any (λ r. is_row_of c u r && not (same_role r.role role)) d.members
          then ok tt
          else err not_chat_member))
      × ((Postgres.update_member_role tables c u role d).0
          ≡ (if any (is_row_of c u) d.members then ok tt else err not_chat_member))
unfolding Chat.update_member_role Postgres.update_member_role Mysql.set_role Chats.set_role
    Chat.affected Postgres.affected ◌>>=◌
update_member_role_differs c u role d = (
  refl,
  rw (count-any (λ r. is_row_of c u r && not (same_role r.role role)) d.members) (ground arith),
  rw (count-any (is_row_of c u) d.members) (ground arith),
)

-- Adding a member does the same in both databases, except where there is no row of the member yet and
-- the chat or the account is unknown: then MySQL returns that the account is a member already, and
-- adds no row.
pub add_member_differs :
    (m : ChatMember) (d : Db)
    → Chat.add_member tables m d ≡ (
        if not (has_member m.chat_id m.user_id d)
          && not (has_chat m.chat_id d && has_user m.user_id d)
        then (err already_chat_member, d)
        else Postgres.add_member tables m d)
unfolding Chat.add_member Postgres.add_member Mysql.insert_ignore_member
    Chats.insert_member_or_ignore Chat.affected Postgres.affected ◌>>=◌
add_member_differs m d = ground arith
