-- ===== src/Storage/Sql/Previews.antt =====
-- internal/infrastructure/storage/postgres/chat.go: the query of `GetUserChats`, with its common
-- table expressions, and the scan of its rows.
use vibechat.Prelude.{
  Bool, not, ◌&&◌, List, [], ◌∷◌, Option, none, some, ℕ, leb, ltb, ◌==◌, is_some, if◌then◌else◌,
  find_first, where_, count_where, map,
}
use vibechat.Exec.{ok, Exec}
use vibechat.Domain.User.{Uuid, Time, epoch}
use vibechat.Domain.Chat.{ChatPreview}
use vibechat.Domain.Message.{Message}
use vibechat.Storage.Tables.{ChatRow, MessageRow, Db}
use vibechat.Storage.Order.{order_by}
use vibechat.Storage.Sql.Chats.{scan_chat, has_member}

-- `ORDER BY m.created_at DESC, m.id DESC`
unfoldable pub newer : MessageRow → MessageRow → Bool
newer a b = if a.created_at == b.created_at then leb b.id a.id else leb b.created_at a.created_at

-- `m.chat_id = … AND m.deleted_at IS NULL`
unfoldable pub is_live_message_of : Uuid → MessageRow → Bool
is_live_message_of chat_id m = m.chat_id == chat_id && not (is_some m.deleted_at)

unfoldable pub first_of {ℓ} : {A : Type ℓ} → List A → Option A
first_of [] = none
first_of (x ∷ xs) = some x

-- `DISTINCT ON (m.chat_id)`: the newest message of the chat that is not deleted.
unfoldable pub last_message : Uuid → Db → Option MessageRow
unfolding newer is_live_message_of first_of order_by
last_message chat_id d = first_of (order_by newer (where_ (is_live_message_of chat_id) d.messages))

-- `COALESCE(last_read_at, 'epoch')`
unfoldable pub read_until : Uuid → Uuid → Db → Time
read_until chat_id user_id d =
    elim (find_first (λ r. r.chat_id == chat_id && r.user_id == user_id) d.receipts) [
      | none ↦ epoch
      | some r ↦ r.last_read_at
    ]

unfoldable pub is_unread : Uuid → Uuid → Time → MessageRow → Bool
unfolding is_live_message_of
is_unread chat_id user_id until m =
    is_live_message_of chat_id m && not (m.sender_id == user_id) && ltb until m.created_at

unfoldable pub unread_count : Uuid → Uuid → Db → ℕ
unfolding is_unread read_until
unread_count chat_id user_id d =
    count_where (is_unread chat_id user_id (read_until chat_id user_id d)) d.messages

pub record PreviewRow : Type 0 where
  pub chat : ChatRow
  pub last : Option MessageRow
  pub unread : ℕ

unfoldable pub preview_row : Uuid → Db → ChatRow → PreviewRow
unfolding last_message unread_count
preview_row user_id d c = record {
  chat = c;
  last = last_message c.id d;
  unread = unread_count c.id user_id d;
}

-- `COALESCE(lm.created_at, uc.created_at)`
unfoldable pub active_at : PreviewRow → Time
active_at r = elim r.last [ none ↦ r.chat.created_at | some m ↦ m.created_at ]

unfoldable pub scan_last : Uuid → MessageRow → Message
scan_last chat_id m = record {
  id = m.id;
  chat_id = chat_id;
  sender_id = m.sender_id;
  content = m.content;
  type = m.type;
  reply_to_id = none;
  edited_at = none;
  deleted_at = none;
  created_at = m.created_at;
  updated_at = m.updated_at;
  sender = none;
  reactions = [];
}

unfoldable pub scan_preview : PreviewRow → ChatPreview
unfolding scan_last scan_chat
scan_preview r = record {
  chat = scan_chat r.chat;
  members = [];
  last_message = elim r.last [ none ↦ none | some m ↦ some (scan_last r.chat.id m) ];
  unread_count = r.unread;
}

unfoldable pub select_user_chats : Uuid → Exec Db (List ChatPreview)
unfolding preview_row active_at scan_preview has_member order_by
select_user_chats user_id d =
    let mine = where_ (λ c. not (is_some c.deleted_at) && has_member c.id user_id d) d.chats in
    let rows =
      order_by (λ a b. leb (active_at b) (active_at a)) (map (preview_row user_id d) mine) in
    (ok (map scan_preview rows), d)
