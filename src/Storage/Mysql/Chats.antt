-- ===== src/Storage/Mysql/Chats.antt =====
-- internal/infrastructure/storage/mysql/chat.go: the statements on `chats` and `chat_members`, with
-- the constraints of migrations/mysql/000001_init.up.sql.
use Prim.Native.String.{count}
use vibechat.Prelude.{
  ℕ, String, Bool, true, false, not, ◌&&◌, List, ◌∷◌, Option, none, some, leb, ◌==◌, str_eq,
  is_some, if◌then◌else◌, any, find_first, where_, count_where, update_where,
}
use vibechat.Exec.{ok, err, Exec}
use vibechat.Domain.Errors.{driver}
use vibechat.Domain.User.{Uuid, Time}
use vibechat.Domain.Chat.{MemberRole, owner, admin, member, Chat, ChatMember, type_is_direct}
use vibechat.Storage.Tables.{ChatRow, Db}
use vibechat.Storage.Order.{order_by}
use vibechat.Storage.Sql.Chats.{
  nullable_str, is_live_chat, is_row_of, has_user, has_chat, has_member, chat_row, member_row,
  set_chat, join_user, join_users, joined_before,
}
use vibechat.Storage.Mysql.{dup_entry, no_referenced_row, check_violated, data_too_long}

max_length : ℕ → Option String → Bool
max_length n none = true
max_length n (some s) = leb (count s) n

unfoldable pub fits : ChatRow → Bool
unfolding max_length
fits r = max_length 100 r.name && max_length 500 r.description

-- `chk_chats_group_name` and `chk_chats_direct_name`
unfoldable pub name_checks : ChatRow → Bool
unfolding type_is_direct
name_checks r = if type_is_direct r.type then not (is_some r.name) else is_some r.name

unfoldable pub insert_chat : Chat → Exec Db (Unit {0})
unfolding chat_row fits name_checks has_chat has_user
insert_chat c d =
    if not (fits (chat_row c))
    then (err (driver data_too_long), d)
    else if not (name_checks (chat_row c))
    then (err (driver check_violated), d)
    else if has_chat c.id d
    then (err (driver dup_entry), d)
    else if not (has_user c.created_by d)
    then (err (driver no_referenced_row), d)
    else (ok tt, record d { chats = chat_row c ∷ d.chats })

unfoldable pub insert_member : ChatMember → Exec Db (Unit {0})
unfolding member_row has_chat has_user has_member
insert_member m d =
    if has_member m.chat_id m.user_id d
    then (err (driver dup_entry), d)
    else if not (has_chat m.chat_id d && has_user m.user_id d)
    then (err (driver no_referenced_row), d)
    else (ok tt, record d { members = member_row m ∷ d.members })

-- INSERT IGNORE: a duplicate key and a missing chat or user are both warnings, and no row is put.
unfoldable pub insert_ignore_member : ChatMember → Exec Db ℕ
unfolding member_row has_chat has_user has_member
insert_ignore_member m d =
    if has_member m.chat_id m.user_id d
    then (ok 0, d)
    else if not (has_chat m.chat_id d && has_user m.user_id d)
    then (ok 0, d)
    else (ok 1, record d { members = member_row m ∷ d.members })

unfoldable pub select_chat : Uuid → Exec Db (Option ChatRow)
unfolding is_live_chat
select_chat id d = (ok (find_first (is_live_chat id) d.chats), d)

same_text : Option String → Option String → Bool
same_text none none = true
same_text none (some t) = false
same_text (some s) none = false
same_text (some s) (some t) = str_eq s t

-- The update gives some column another value.
unfoldable pub is_changed : Chat → ChatRow → Bool
unfolding same_text nullable_str
is_changed c r = not (
    same_text (nullable_str c.name) r.name
    && same_text (nullable_str c.avatar_url) r.avatar_url
    && same_text (nullable_str c.description) r.description
    && c.updated_at == r.updated_at)

unfoldable pub update_chat : Chat → Exec Db ℕ
unfolding is_live_chat set_chat fits name_checks is_changed
update_chat c d =
    if any (λ r. is_live_chat c.id r && not (fits (set_chat c r))) d.chats
    then (err (driver data_too_long), d)
    else if any (λ r. is_live_chat c.id r && not (name_checks (set_chat c r))) d.chats
    then (err (driver check_violated), d)
    else (
      ok (count_where (λ r. is_live_chat c.id r && is_changed c r) d.chats),
      record d { chats = update_where (is_live_chat c.id) (set_chat c) d.chats },
    )

-- `ON UPDATE CURRENT_TIMESTAMP(6)` sets the time of the last update as well.
unfoldable pub retire : Time → ChatRow → ChatRow
retire now r = record r { deleted_at = some now; updated_at = now }

unfoldable pub soft_delete_chat : Uuid → Exec Db ℕ
unfolding is_live_chat retire
soft_delete_chat id d = (
  ok (count_where (is_live_chat id) d.chats),
  record d { chats = update_where (is_live_chat id) (retire d.now) d.chats },
)

unfoldable pub delete_member : Uuid → Uuid → Exec Db ℕ
unfolding is_row_of
delete_member chat_id user_id d = (
  ok (count_where (is_row_of chat_id user_id) d.members),
  record d { members = where_ (λ r. not (is_row_of chat_id user_id r)) d.members },
)

unfoldable pub same_role : MemberRole → MemberRole → Bool
same_role owner owner = true
same_role admin admin = true
same_role member member = true
same_role _ _ = false

-- A row that has the role already is found and not changed.
unfoldable pub set_role : Uuid → Uuid → MemberRole → Exec Db ℕ
unfolding is_row_of same_role
set_role chat_id user_id role d = (
  ok (count_where (λ r. is_row_of chat_id user_id r && not (same_role r.role role)) d.members),
  record d {
    members = update_where (is_row_of chat_id user_id) (λ r. record r { role = role }) d.members;
  },
)

unfoldable pub select_member : Uuid → Uuid → Exec Db (Option ChatMember)
unfolding is_row_of join_user
select_member chat_id user_id d = elim (find_first (is_row_of chat_id user_id) d.members) [
  | none ↦ (ok none, d)
  | some r ↦ (ok (join_user d r), d)
]

-- `ORDER BY cm.joined_at, cm.user_id`: the texts of ids stand in the order of the ids.
unfoldable pub select_members : Uuid → Exec Db (List ChatMember)
unfolding join_users joined_before order_by
select_members chat_id d =
    (ok (order_by joined_before (join_users d (where_ (λ r. r.chat_id == chat_id) d.members))), d)

unfoldable pub select_direct_chat : Uuid → Uuid → Exec Db (Option ChatRow)
unfolding type_is_direct has_member
select_direct_chat user1_id user2_id d = (
  ok (
      find_first
        (λ r.
          type_is_direct r.type
          && not (is_some r.deleted_at)
          && has_member r.id user1_id d
          && has_member r.id user2_id d)
        d.chats),
  d,
)

-- `exists == 1`
unfoldable pub exists_member : Uuid → Uuid → Exec Db Bool
unfolding has_member
exists_member chat_id user_id d = (ok (has_member chat_id user_id d), d)
