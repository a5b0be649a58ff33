-- ===== src/Storage/Mysql/Previews.antt =====
-- internal/infrastructure/storage/mysql/chat.go: the query of `GetUserChats`, in which ROW_NUMBER()
-- picks the last message of a chat, and the scan of its rows.
pub mod Agrees
use vibechat.Prelude.{
  Bool, not, ◌&&◌, List, [], ◌∷◌, Option, none, some, ℕ, suc, leb, ltb, ◌==◌, is_some, find_first,
  where_, count_where, map,
}
use vibechat.Exec.{ok, Exec}
use vibechat.Domain.User.{Uuid, Time, epoch}
use vibechat.Domain.Chat.{ChatPreview}
use vibechat.Domain.Message.{Message}
use vibechat.Storage.Tables.{ChatRow, MessageRow, Db}
use vibechat.Storage.Order.{order_by}
use vibechat.Storage.Sql.Chats.{scan_chat, has_member}
use vibechat.Storage.Sql.Previews.{newer, is_live_message_of, PreviewRow}

-- The messages of a chat's partition that stand before `m` in ORDER BY created_at DESC, id DESC.
unfoldable pub row_number : List MessageRow → MessageRow → ℕ
unfolding newer
row_number partition m = suc (count_where (λ x. newer x m && not (x.id == m.id)) partition)

-- `WHERE rn = 1`
unfoldable pub last_message : Uuid → Db → Option MessageRow
unfolding row_number is_live_message_of
last_message chat_id d =
    let partition = where_ (is_live_message_of chat_id) d.messages in
    find_first (λ m. row_number partition m == 1) partition

-- `COALESCE((SELECT crr.last_read_at …), '1970-01-01 00:00:00')`
unfoldable pub read_until : Uuid → Uuid → Db → Time
read_until chat_id user_id d =
    elim (find_first (λ r. r.chat_id == chat_id && r.user_id == user_id) d.receipts) [
      | none ↦ epoch
      | some r ↦ r.last_read_at
    ]

-- `COALESCE(u.cnt, 0)`
unfoldable pub unread_count : Uuid → Uuid → Db → ℕ
unfolding is_live_message_of read_until
unread_count chat_id user_id d =
    count_where
      (λ m.
        is_live_message_of chat_id m
        && not (m.sender_id == user_id)
        && ltb (read_until chat_id user_id d) m.created_at)
      d.messages

unfoldable pub preview_row : Uuid → Db → ChatRow → PreviewRow
unfolding last_message unread_count
preview_row user_id d c = record {
  chat = c;
  last = last_message c.id d;
  unread = unread_count c.id user_id d;
}

-- `COALESCE(lm.created_at, uc.created_at)`
unfoldable pub active_at : PreviewRow → Time
active_at r = elim r.last [ none ↦ r.chat.created_at | some m ↦ m.created_at ]

unfoldable pub scan_last : Uuid → MessageRow → Message
scan_last chat_id m = record {
  id = m.id;
  chat_id = chat_id;
  sender_id = m.sender_id;
  content = m.content;
  type = m.type;
  reply_to_id = none;
  edited_at = none;
  deleted_at = none;
  created_at = m.created_at;
  updated_at = m.updated_at;
  sender = none;
  reactions = [];
}

unfoldable pub scan_preview : PreviewRow → ChatPreview
unfolding scan_last scan_chat
scan_preview r = record {
  chat = scan_chat r.chat;
  members = [];
  last_message = elim r.last [ none ↦ none | some m ↦ some (scan_last r.chat.id m) ];
  unread_count = r.unread;
}

unfoldable pub select_user_chats : Uuid → Exec Db (List ChatPreview)
unfolding preview_row active_at scan_preview has_member order_by
select_user_chats user_id d =
    let mine = where_ (λ c. not (is_some c.deleted_at) && has_member c.id user_id d) d.chats in
    let rows =
      order_by (λ a b. leb (active_at b) (active_at a)) (map (preview_row user_id d) mine) in
    (ok (map scan_preview rows), d)
