-- ===== src/Tests/Data.antt =====
-- A database of four accounts and one group, and a network that fails the tenth statement.
use vibechat.Prelude.{ℕ, String, true, refl, [], ◌∷◌, none, some, ◌==◌, arith, if◌then◌else◌}
use vibechat.Domain.User.{offline}
use vibechat.Domain.Chat.{group, owner, admin, member, MemberRole, is_owner}
use vibechat.Storage.Tables.{Db, UserRow, ChatRow, MemberRow}
use vibechat.Storage.Connection.{World}
use vibechat.Storage.Sql.Chats.{is_row_of}
use vibechat.Storage.Sql.Users.{Collation}
use vibechat.Storage.Ownership.{IsOwned}
use vibechat.Storage.Ownership.Rows.{owners}

abbrev pub col : Collation
col = record { ilike = λ q s. true; before = λ a b. true }

abbrev pub account : ℕ → String → String → UserRow
account id name email = record {
  user = record {
    id = id;
    username = name;
    email = email;
    password_hash = "$2a$10$";
    avatar_url = "";
    bio = "";
    status = offline;
    last_seen = 0;
    created_at = 0;
    updated_at = 0;
  };
  deleted_at = none;
}

abbrev team : ChatRow
team = record {
  id = 10;
  type = group;
  name = some "Team";
  avatar_url = none;
  description = none;
  created_by = 1;
  created_at = 5;
  updated_at = 5;
  deleted_at = none;
}

abbrev pub row : ℕ → MemberRole → ℕ → MemberRow
row u r t = record { chat_id = 10; user_id = u; role = r; joined_at = t }

-- Ann owns the team, Bob is an admin, Cid is a member, and Dan is not in it.
abbrev pub db : Db
db = record {
  users =
      account 1 "ann" "ann@example.com"
      ∷ account 2 "bob" "bob@example.com"
      ∷ account 3 "cid" "cid@example.com"
      ∷ account 4 "dan" "dan@example.com"
      ∷ [];
  chats = team ∷ [];
  members = row 1 owner 5 ∷ row 2 admin 6 ∷ row 3 member 7 ∷ [];
  messages = [];
  receipts = [];
  reactions = [];
  now = 9;
}

abbrev pub world : World
world = record { db = db; sent = 0; faults = λ n. if n == 9 then some 7 else none }

pub db-IsOwned : IsOwned db
unfolding owners is_owner is_row_of
db-IsOwned = record {
  chats_distinct = (refl, tt);
  members_distinct = (refl, (refl, (refl, tt)));
  owned = λ k. ground arith;
}
