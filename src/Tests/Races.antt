-- ===== src/Tests/Races.antt =====
-- The race of an update and a reader, on the group of `Data` before the mock cache: the team gets
-- another name.
use vibechat.Prelude.{String, ◌≡◌, refl, arith, some, none, pos, if◌then◌else◌, ◌==◌}
use vibechat.Exec.{Exec, ok, ◌>>=◌, ◌>>◌}
use vibechat.Domain.Chat.{Chat, ChatMember, group}
use vibechat.Cache.Mock.{MockCache, missing, new, get, set, del}
use vibechat.Cache.Mock.Laws.{mock}
use vibechat.Storage.Tables.{Db}
use vibechat.Storage.Connection.{tables}
use vibechat.Storage.Cached.{Codec, from_origin}
use vibechat.Storage.Cached.Chat as Cached
use vibechat.Storage.Cached.Chat.{drop, chat_key}
use vibechat.Storage.Cached.Chat.Races
use vibechat.Storage.Postgres.Chat as Postgres
use vibechat.Storage.Postgres.Chat.{chat_repository}
use vibechat.Storage.Sql.Chats.{select_chat, update_chat}
use vibechat.Domain.Errors.{driver}
use vibechat.Domain.User.{Uuid}
use vibechat.Tests.Data.{db}

abbrev show : Uuid → String
show id = if id == 10 then "10" else "other"

abbrev old : Chat
old = record {
  id = 10;
  type = group;
  name = "Team";
  avatar_url = "";
  description = "";
  created_by = 1;
  created_at = 5;
  updated_at = 5;
}

abbrev renamed : Chat
renamed = record old { name = "Crew"; updated_at = 9 }

-- Only the old chat is ever stored.
abbrev chats : Codec Chat
chats = record { marshal = λ c. some "team"; unmarshal = λ raw. some old }

abbrev no_members : Codec ChatMember
no_members = record { marshal = λ m. none; unmarshal = λ raw. none }

abbrev read : Exec (Db × MockCache) Chat
read = Cached.get_by_id show chats no_members (chat_repository tables) mock (pos 300) (pos 60) 10

found : Postgres.get_by_id tables 10 db ≡ (ok old, db)
unfolding Postgres.get_by_id select_chat ◌>>=◌
found = refl

written : Postgres.update tables renamed db ≡ (ok tt, (Postgres.update tables renamed db).1)
unfolding Postgres.update update_chat ◌>>=◌
written = refl

update_raced_example :
    (Cached.update show chats no_members (chat_repository tables) mock (pos 300) (pos 60) renamed
      ≡ (drop mock "chat:10" >> from_origin (Postgres.update tables renamed)))
    × (((drop mock "chat:10"
            >> (read >>= λ _. (from_origin (Postgres.update tables renamed) >> read)))
          (db, new 9)).0
        ≡ ok old)
unfolding chat_key get set del
update_raced_example =
    Races.update_raced show chats no_members (chat_repository tables) mock (pos 300) (pos 60)
      renamed old "team" db (Postgres.update tables renamed db).1 (new 9) (driver missing) found
      written refl refl (λ j. refl) (λ j. ground arith)
