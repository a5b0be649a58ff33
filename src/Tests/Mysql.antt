-- ===== src/Tests/Mysql.antt =====
-- The theorems about the repositories of MySQL, on the tables of `Data`.
use vibechat.Prelude.{ℕ, ◌≡◌, refl, none, [], ◌∷◌}
use vibechat.Exec.{ok, err}
use vibechat.Domain.Errors.{not_chat_member, already_chat_member}
use vibechat.Domain.Chat.{ChatMember, admin, member}
use vibechat.Domain.Message.{text}
use vibechat.Storage.Tables.{Db, MessageRow}
use vibechat.Storage.Connection.{tables}
use vibechat.Storage.Sql.Chats.{is_row_of, has_member, has_chat, has_user}
use vibechat.Storage.Mysql.Chats.{same_role}
use vibechat.Storage.Postgres.Chat as Postgres
use vibechat.Storage.Mysql.Chat
use vibechat.Storage.Mysql.Differs
use vibechat.Storage.Mysql.Previews.Agrees
use vibechat.Tests.Data.{db}

abbrev message : ℕ → ℕ → MessageRow
message id at = record {
  id = id;
  chat_id = 10;
  sender_id = 1;
  content = "hello";
  type = text;
  reply_to_id = none;
  edited_at = none;
  deleted_at = none;
  created_at = at;
  updated_at = at;
}

-- Two messages of one instant, and an older one.
abbrev talking : Db
talking = record db { messages = message 100 8 ∷ message 102 9 ∷ message 101 9 ∷ [] }

get_user_chats-agrees_example :
    Chat.get_user_chats tables 2 talking ≡ Postgres.get_user_chats tables 2 talking
get_user_chats-agrees_example = Agrees.get_user_chats-agrees 2 talking (refl, (refl, (refl, tt)))

-- Bob is an admin already.
update_member_role_differs_example :
    ((Chat.update_member_role tables 10 2 admin db).1
      ≡ (Postgres.update_member_role tables 10 2 admin db).1)
    × ((Chat.update_member_role tables 10 2 admin db).0 ≡ err not_chat_member)
    × ((Postgres.update_member_role tables 10 2 admin db).0 ≡ ok tt)
unfolding is_row_of same_role
update_member_role_differs_example = Differs.update_member_role_differs 10 2 admin db

-- Nobody has the id 9.
abbrev nobody : ChatMember
nobody = record { chat_id = 10; user_id = 9; role = member; joined_at = 8; user = none }

add_member_differs_example : Chat.add_member tables nobody db ≡ (err already_chat_member, db)
unfolding has_member has_chat has_user
add_member_differs_example = Differs.add_member_differs nobody db
