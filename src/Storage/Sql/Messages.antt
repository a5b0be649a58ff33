-- ===== src/Storage/Sql/Messages.antt =====
-- internal/infrastructure/storage/postgres/message.go: the statements on `messages`,
-- `chat_read_receipts` and `message_reactions`, with the constraints of
-- migrations/postgres/000001_init.up.sql.
use Prim.Native.String.{count}
use vibechat.Prelude.{
  ℕ, String, Bool, true, not, ◌&&◌, ◌||◌, List, [], ◌∷◌, Option, none, some, ◌==◌, leb, ltb, str_eq,
  is_some, if◌then◌else◌, any, find_first, where_, count_where, update_where, take,
}
use vibechat.Exec.{ok, err, Exec}
use vibechat.Domain.Errors.{driver}
use vibechat.Domain.User.{Uuid}
use vibechat.Domain.Message.{Message, MessageCursor, Reaction}
use vibechat.Storage.Tables.{
  MessageRow, ReactionRow, ReceiptRow, Db, unique_violation, foreign_key_violation, check_violation,
}
use vibechat.Storage.Order.{order_by}
use vibechat.Storage.Sql.Chats.{has_chat, has_user}
use vibechat.Storage.Sql.Previews.{newer, is_live_message_of, unread_count}

unfoldable pub has_message : Uuid → Db → Bool
has_message id d = any (λ r. r.id == id) d.messages

-- `char_length(content)` between 1 and 4096
unfoldable pub message_checks : Message → Bool
message_checks m = leb 1 (count m.content) && leb (count m.content) 4096

unfoldable pub reply_exists : Option Uuid → Db → Bool
unfolding has_message
reply_exists none d = true
reply_exists (some id) d = has_message id d

unfoldable pub message_row : Message → MessageRow
message_row m = record {
  id = m.id;
  chat_id = m.chat_id;
  sender_id = m.sender_id;
  content = m.content;
  type = m.type;
  reply_to_id = m.reply_to_id;
  edited_at = none;
  deleted_at = none;
  created_at = m.created_at;
  updated_at = m.updated_at;
}

unfoldable pub insert_message : Message → Exec Db (Unit {0})
unfolding has_message message_checks reply_exists message_row has_chat has_user
insert_message m d =
    if not (message_checks m)
    then (err (driver check_violation), d)
    else if has_message m.id d
    then (err (driver unique_violation), d)
    else if not (has_chat m.chat_id d && (has_user m.sender_id d && reply_exists m.reply_to_id d))
    then (err (driver foreign_key_violation), d)
    else (ok tt, record d { messages = message_row m ∷ d.messages })

-- `scanMessage`
unfoldable pub scan_message : MessageRow → Message
scan_message r = record {
  id = r.id;
  chat_id = r.chat_id;
  sender_id = r.sender_id;
  content = r.content;
  type = r.type;
  reply_to_id = r.reply_to_id;
  edited_at = r.edited_at;
  deleted_at = r.deleted_at;
  created_at = r.created_at;
  updated_at = r.updated_at;
  sender = none;
  reactions = [];
}

-- `WHERE m.id = $1`: deleted messages too.
unfoldable pub select_message : Uuid → Exec Db (Option MessageRow)
select_message id d = (ok (find_first (λ r. r.id == id) d.messages), d)

-- `(m.created_at, m.id) < ($2, $3)`, where there is a cursor.
unfoldable pub is_older : Option MessageCursor → MessageRow → Bool
is_older none r = true
is_older (some c) r =
    ltb r.created_at c.created_at || (r.created_at == c.created_at && ltb r.id c.id)

-- `JOIN users u ON u.id = m.sender_id`, without the password hash.
unfoldable pub with_sender : Db → MessageRow → Option Message
unfolding scan_message
with_sender d r = elim (find_first (λ u. u.user.id == r.sender_id) d.users) [
  | none ↦ none
  | some u ↦
      some (record (scan_message r) { sender = some (record (u.user) { password_hash = "" }) })
]

unfoldable pub join_senders : Db → List MessageRow → List Message
unfolding with_sender
join_senders d [] = []
join_senders d (r ∷ rs) =
    let rest = join_senders d rs in elim (with_sender d r) [ none ↦ rest | some m ↦ m ∷ rest ]

unfoldable pub select_messages : Uuid → Option MessageCursor → ℕ → Exec Db (List Message)
unfolding is_live_message_of is_older newer join_senders order_by
select_messages chat_id cursor limit d =
    let rows = where_ (λ r. is_live_message_of chat_id r && is_older cursor r) d.messages in
    (ok (take limit (join_senders d (order_by newer rows))), d)

-- `id = $1 AND deleted_at IS NULL`
unfoldable pub is_live_message : Uuid → MessageRow → Bool
is_live_message id r = r.id == id && not (is_some r.deleted_at)

unfoldable pub set_content : Message → MessageRow → MessageRow
set_content m r = record r {
  content = m.content;
  edited_at = m.edited_at;
  updated_at = m.updated_at;
}

unfoldable pub update_message : Message → Exec Db ℕ
unfolding is_live_message set_content message_checks
update_message m d =
    let n = count_where (is_live_message m.id) d.messages in
    if not (n == 0) && not (message_checks m) then (err (driver check_violation), d) else (
      ok n,
      record d { messages = update_where (is_live_message m.id) (set_content m) d.messages },
    )

unfoldable pub soft_delete_message : Uuid → Exec Db ℕ
unfolding is_live_message
soft_delete_message id d = (
  ok (count_where (is_live_message id) d.messages),
  record d {
    messages =
        update_where (is_live_message id)
          (λ r. record r { deleted_at = some d.now; updated_at = d.now }) d.messages;
  },
)

-- `ON CONFLICT (chat_id, user_id) DO UPDATE SET last_read_at = NOW()`
unfoldable pub upsert_receipt : Uuid → Uuid → Exec Db (Unit {0})
unfolding has_chat has_user
upsert_receipt chat_id user_id d =
    let same : ReceiptRow → Bool = (λ r. r.chat_id == chat_id && r.user_id == user_id) in
    if any same d.receipts
    then (
      ok tt,
      record d { receipts = update_where same (λ r. record r { last_read_at = d.now }) d.receipts },
    )
    else if not (has_chat chat_id d && has_user user_id d)
    then (err (driver foreign_key_violation), d)
    else (
      ok tt,
      record d {
        receipts =
            record { chat_id = chat_id; user_id = user_id; last_read_at = d.now } ∷ d.receipts;
      },
    )

unfoldable pub select_unread_count : Uuid → Uuid → Exec Db ℕ
unfolding unread_count
select_unread_count chat_id user_id d = (ok (unread_count chat_id user_id d), d)

unfoldable pub is_reaction : Uuid → Uuid → String → ReactionRow → Bool
is_reaction message_id user_id emoji r =
    r.message_id == message_id && (r.user_id == user_id && str_eq r.emoji emoji)

-- `ON CONFLICT (message_id, user_id, emoji) DO NOTHING`
unfoldable pub insert_reaction : Reaction → Exec Db (Unit {0})
unfolding is_reaction has_message has_user
insert_reaction x d =
    if not (leb 1 (count x.emoji) && leb (count x.emoji) 10)
    then (err (driver check_violation), d)
    else if any (is_reaction x.message_id x.user_id x.emoji) d.reactions
    then (ok tt, d)
    else if not (has_message x.message_id d && has_user x.user_id d)
    then (err (driver foreign_key_violation), d)
    else (
      ok tt,
      record d {
        reactions =
            record {
              message_id = x.message_id;
              user_id = x.user_id;
              emoji = x.emoji;
              created_at = x.created_at;
            }
            ∷ d.reactions;
      },
    )

unfoldable pub delete_reaction : Uuid → Uuid → String → Exec Db (Unit {0})
unfolding is_reaction
delete_reaction message_id user_id emoji d = (
  ok tt,
  record d { reactions = where_ (λ r. not (is_reaction message_id user_id emoji r)) d.reactions },
)
