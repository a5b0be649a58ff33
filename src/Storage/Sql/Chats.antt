-- ===== src/Storage/Sql/Chats.antt =====
-- internal/infrastructure/storage/postgres/chat.go: the statements on `chats` and `chat_members`,
-- with the constraints of migrations/postgres/000001_init.up.sql. A statement that writes returns
-- the number of the rows that it affected.
use Prim.Native.String.{count}
use vibechat.Prelude.{
  ℕ, String, Bool, true, not, ◌&&◌, List, [], ◌∷◌, Option, none, some, leb, ◌==◌, str_eq, is_some,
  if◌then◌else◌, any, find_first, where_, count_where, update_where,
}
use vibechat.Exec.{ok, err, Exec}
use vibechat.Domain.Errors.{driver}
use vibechat.Domain.User.{Uuid}
use vibechat.Domain.Chat.{MemberRole, Chat, ChatMember, type_is_direct}
use vibechat.Storage.Tables.{
  UserRow, ChatRow, MemberRow, Db, unique_violation, foreign_key_violation, check_violation,
  string_too_long,
}
use vibechat.Storage.Order.{order_by}

-- `nullableStr`: the empty text is stored as NULL.
unfoldable pub nullable_str : String → Option String
nullable_str s = if str_eq s "" then none else some s

-- What `scanChat` makes of a nullable text.
unfoldable pub string_of : Option String → String
string_of none = ""
string_of (some s) = s

unfoldable pub chat_row : Chat → ChatRow
unfolding nullable_str
chat_row c = record {
  id = c.id;
  type = c.type;
  name = nullable_str c.name;
  avatar_url = nullable_str c.avatar_url;
  description = nullable_str c.description;
  created_by = c.created_by;
  created_at = c.created_at;
  updated_at = c.updated_at;
  deleted_at = none;
}

unfoldable pub scan_chat : ChatRow → Chat
unfolding string_of
scan_chat r = record {
  id = r.id;
  type = r.type;
  name = string_of r.name;
  avatar_url = string_of r.avatar_url;
  description = string_of r.description;
  created_by = r.created_by;
  created_at = r.created_at;
  updated_at = r.updated_at;
}

-- `id = $1 AND deleted_at IS NULL`
unfoldable pub is_live_chat : Uuid → ChatRow → Bool
is_live_chat id r = r.id == id && not (is_some r.deleted_at)

unfoldable pub is_live_user : Uuid → UserRow → Bool
is_live_user id r = r.user.id == id && not (is_some r.deleted_at)

-- `chat_id = $1 AND user_id = $2`
unfoldable pub is_row_of : Uuid → Uuid → MemberRow → Bool
is_row_of chat_id user_id r = r.chat_id == chat_id && r.user_id == user_id

max_length : ℕ → Option String → Bool
max_length n none = true
max_length n (some s) = leb (count s) n

-- The checks of the table: a group has a name and a direct chat has none.
unfoldable pub chat_checks : ChatRow → Bool
unfolding type_is_direct
chat_checks r = if type_is_direct r.type then not (is_some r.name) else is_some r.name

-- VARCHAR(n) holds n characters; a longer text is refused before the checks are looked at.
unfoldable pub chat_fits : ChatRow → Bool
unfolding max_length
chat_fits r = max_length 100 r.name && max_length 500 r.description

unfoldable pub has_user : Uuid → Db → Bool
has_user id d = any (λ r. r.user.id == id) d.users

unfoldable pub has_chat : Uuid → Db → Bool
has_chat id d = any (λ r. r.id == id) d.chats

unfoldable pub has_member : Uuid → Uuid → Db → Bool
unfolding is_row_of
has_member chat_id user_id d = any (is_row_of chat_id user_id) d.members

unfoldable pub insert_chat : Chat → Exec Db (Unit {0})
unfolding chat_row chat_fits chat_checks has_chat has_user
insert_chat c d =
    if not (chat_fits (chat_row c))
    then (err (driver string_too_long), d)
    else if not (chat_checks (chat_row c))
    then (err (driver check_violation), d)
    else if has_chat c.id d
    then (err (driver unique_violation), d)
    else if not (has_user c.created_by d)
    then (err (driver foreign_key_violation), d)
    else (ok tt, record d { chats = chat_row c ∷ d.chats })

unfoldable pub member_row : ChatMember → MemberRow
member_row m = record {
  chat_id = m.chat_id;
  user_id = m.user_id;
  role = m.role;
  joined_at = m.joined_at;
}

unfoldable pub insert_member : ChatMember → Exec Db (Unit {0})
unfolding member_row has_chat has_user has_member
insert_member m d =
    if has_member m.chat_id m.user_id d
    then (err (driver unique_violation), d)
    else if not (has_chat m.chat_id d && has_user m.user_id d)
    then (err (driver foreign_key_violation), d)
    else (ok tt, record d { members = member_row m ∷ d.members })

-- `ON CONFLICT (chat_id, user_id) DO NOTHING`
unfoldable pub insert_member_or_ignore : ChatMember → Exec Db ℕ
unfolding member_row has_chat has_user has_member
insert_member_or_ignore m d =
    if has_member m.chat_id m.user_id d
    then (ok 0, d)
    else if not (has_chat m.chat_id d && has_user m.user_id d)
    then (err (driver foreign_key_violation), d)
    else (ok 1, record d { members = member_row m ∷ d.members })

unfoldable pub select_chat : Uuid → Exec Db (Option ChatRow)
unfolding is_live_chat
select_chat id d = (ok (find_first (is_live_chat id) d.chats), d)

unfoldable pub set_chat : Chat → ChatRow → ChatRow
unfolding nullable_str
set_chat c r = record r {
  name = nullable_str c.name;
  avatar_url = nullable_str c.avatar_url;
  description = nullable_str c.description;
  updated_at = c.updated_at;
}

-- A row that the update makes invalid fails the statement.
unfoldable pub update_chat : Chat → Exec Db ℕ
unfolding is_live_chat set_chat chat_fits chat_checks
update_chat c d =
    if any (λ r. is_live_chat c.id r && not (chat_fits (set_chat c r))) d.chats
    then (err (driver string_too_long), d)
    else if any (λ r. is_live_chat c.id r && not (chat_checks (set_chat c r))) d.chats
    then (err (driver check_violation), d)
    else (
      ok (count_where (is_live_chat c.id) d.chats),
      record d { chats = update_where (is_live_chat c.id) (set_chat c) d.chats },
    )

unfoldable pub soft_delete_chat : Uuid → Exec Db ℕ
unfolding is_live_chat
soft_delete_chat id d = (
  ok (count_where (is_live_chat id) d.chats),
  record d {
    chats = update_where (is_live_chat id) (λ r. record r { deleted_at = some d.now }) d.chats;
  },
)

unfoldable pub delete_member : Uuid → Uuid → Exec Db ℕ
unfolding is_row_of
delete_member chat_id user_id d = (
  ok (count_where (is_row_of chat_id user_id) d.members),
  record d { members = where_ (λ r. not (is_row_of chat_id user_id r)) d.members },
)

unfoldable pub set_role : Uuid → Uuid → MemberRole → Exec Db ℕ
unfolding is_row_of
set_role chat_id user_id role d = (
  ok (count_where (is_row_of chat_id user_id) d.members),
  record d {
    members = update_where (is_row_of chat_id user_id) (λ r. record r { role = role }) d.members;
  },
)

-- `JOIN users u ON u.id = cm.user_id AND u.deleted_at IS NULL`
unfoldable pub join_user : Db → MemberRow → Option ChatMember
unfolding is_live_user
join_user d r = elim (find_first (is_live_user r.user_id) d.users) [
  | none ↦ none
  | some u ↦ some (record {
    chat_id = r.chat_id;
    user_id = r.user_id;
    role = r.role;
    joined_at = r.joined_at;
    user = some u.user;
  })
]

-- The primary key allows one row at most.
unfoldable pub select_member : Uuid → Uuid → Exec Db (Option ChatMember)
unfolding is_row_of join_user
select_member chat_id user_id d = elim (find_first (is_row_of chat_id user_id) d.members) [
  | none ↦ (ok none, d)
  | some r ↦ (ok (join_user d r), d)
]

unfoldable pub join_users : Db → List MemberRow → List ChatMember
unfolding join_user
join_users d [] = []
join_users d (r ∷ rs) =
    let rest = join_users d rs in elim (join_user d r) [ none ↦ rest | some m ↦ m ∷ rest ]

-- `ORDER BY cm.joined_at, cm.user_id`
unfoldable pub joined_before : ChatMember → ChatMember → Bool
joined_before a b =
    if a.joined_at == b.joined_at then leb a.user_id b.user_id else leb a.joined_at b.joined_at

unfoldable pub select_members : Uuid → Exec Db (List ChatMember)
unfolding join_users joined_before order_by
select_members chat_id d =
    (ok (order_by joined_before (join_users d (where_ (λ r. r.chat_id == chat_id) d.members))), d)

-- `LIMIT 1` with no order: the first row of the table that fits.
unfoldable pub select_direct_chat : Uuid → Uuid → Exec Db (Option ChatRow)
unfolding type_is_direct is_row_of has_member
select_direct_chat user1_id user2_id d = (
  ok (
      find_first
        (λ r.
          type_is_direct r.type
          && not (is_some r.deleted_at)
          && has_member r.id user1_id d
          && has_member r.id user2_id d)
        d.chats),
  d,
)

unfoldable pub exists_member : Uuid → Uuid → Exec Db Bool
unfolding has_member
exists_member chat_id user_id d = (ok (has_member chat_id user_id d), d)
