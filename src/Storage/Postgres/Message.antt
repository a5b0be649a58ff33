-- ===== src/Storage/Postgres/Message.antt =====
-- internal/infrastructure/storage/postgres/message.go: the repository of messages over a handle.
use vibechat.Prelude.{ℕ, String, List, [], ◌∷◌, Option, none, some}
use vibechat.Exec.{Result, ok, err, Exec, pure, lift, ◌>>=◌}
use vibechat.Domain.Errors.{message_not_found}
use vibechat.Domain.User.{Uuid}
use vibechat.Domain.Message.{Message, MessageCursor, MessageRepository, Reaction}
use vibechat.Storage.Tables.{MessageRow}
use vibechat.Storage.Connection.{Connection}
use vibechat.Storage.Postgres.Chat.{affected}
use vibechat.Storage.Sql.Messages.{
  scan_message, insert_message, select_message, select_messages, update_message,
  soft_delete_message, upsert_receipt, select_unread_count, insert_reaction, delete_reaction,
}
use vibechat.Storage.Sql.Reactions.{select_reactions, select_reactions_any, group_reactions}
use vibechat.Storage.Sql.Users.{Collation}

unfoldable pub found_message : Option MessageRow → Result Message
unfolding scan_message
found_message none = err message_not_found
found_message (some r) = ok (scan_message r)

module _ {S : Type 0} (conn : Connection S) (collation : Collation) where
  unfoldable pub create : Message → Exec S (Unit {0})
  create m = conn.exec Unit (insert_message m)

  unfoldable pub get_by_id : Uuid → Exec S Message
  unfolding found_message
  get_by_id id = do row ← conn.exec _ (select_message id); lift (found_message row)

  unfoldable pub get_chat_messages : Uuid → Option MessageCursor → ℕ → Exec S (List Message)
  get_chat_messages chat_id cursor limit = conn.exec _ (select_messages chat_id cursor limit)

  unfoldable pub update : Message → Exec S (Unit {0})
  unfolding affected
  update m = do n ← conn.exec ℕ (update_message m); lift (affected message_not_found n)

  unfoldable pub delete : Uuid → Exec S (Unit {0})
  unfolding affected
  delete id = do n ← conn.exec ℕ (soft_delete_message id); lift (affected message_not_found n)

  unfoldable pub mark_read : Uuid → Uuid → Exec S (Unit {0})
  mark_read chat_id user_id = conn.exec Unit (upsert_receipt chat_id user_id)

  unfoldable pub get_unread_count : Uuid → Uuid → Exec S ℕ
  get_unread_count chat_id user_id = conn.exec ℕ (select_unread_count chat_id user_id)

  unfoldable pub add_reaction : Reaction → Exec S (Unit {0})
  add_reaction x = conn.exec Unit (insert_reaction x)

  unfoldable pub remove_reaction : Uuid → Uuid → String → Exec S (Unit {0})
  remove_reaction message_id user_id emoji =
      conn.exec Unit (delete_reaction message_id user_id emoji)

  unfoldable pub get_reactions : Uuid → Exec S (List Reaction)
  get_reactions message_id = conn.exec _ (select_reactions collation message_id)

  unfoldable pub get_reactions_batch : List Uuid → Exec S (List (Uuid × List Reaction))
  unfolding group_reactions
  get_reactions_batch [] = pure []
  get_reactions_batch (id ∷ ids) = do
    xs ← conn.exec _ (select_reactions_any collation (id ∷ ids))
    pure (group_reactions [] xs)

  -- `NewMessageRepository`
  abbrev pub message_repository : MessageRepository S
  message_repository = record {
    create = create;
    get_by_id = get_by_id;
    get_chat_messages = get_chat_messages;
    update = update;
    delete = delete;
    mark_read = mark_read;
    get_unread_count = get_unread_count;
    add_reaction = add_reaction;
    remove_reaction = remove_reaction;
    get_reactions = get_reactions;
    get_reactions_batch = get_reactions_batch;
  }
