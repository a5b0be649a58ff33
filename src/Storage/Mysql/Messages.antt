-- ===== src/Storage/Mysql/Messages.antt =====
-- internal/infrastructure/storage/mysql/message.go: the writes to `messages`, `chat_read_receipts` and
-- `message_reactions`, with the constraints of migrations/mysql/000001_init.up.sql. The queries say
-- the same as those of PostgreSQL, with IN for ANY, and stand in Storage.Sql.
use Prim.Native.String.{count, len}
use vibechat.Prelude.{
  ℕ, zero, suc, String, Bool, true, false, not, ◌&&◌, ◌∷◌, Option, none, some, ◌==◌, leb, str_eq,
  if◌then◌else◌, any, where_, count_where, update_where,
}
use vibechat.Exec.{ok, err, Exec}
use vibechat.Domain.Errors.{driver}
use vibechat.Domain.User.{Uuid, Time}
use vibechat.Domain.Message.{Message, Reaction}
use vibechat.Storage.Tables.{MessageRow, ReactionRow, ReceiptRow, Db}
use vibechat.Storage.Sql.Chats.{has_chat, has_user}
use vibechat.Storage.Sql.Messages.{
  has_message, message_checks, reply_exists, message_row, is_live_message, set_content,
}
use vibechat.Storage.Mysql.{dup_entry, no_referenced_row, check_violated, data_too_long}

-- A TEXT holds 65535 bytes.
unfoldable pub text_fits : String → Bool
text_fits s = leb (len s) 65535

unfoldable pub insert_message : Message → Exec Db (Unit {0})
unfolding text_fits has_message message_checks reply_exists message_row has_chat has_user
insert_message m d =
    if not (text_fits m.content)
    then (err (driver data_too_long), d)
    else if not (message_checks m)
    then (err (driver check_violated), d)
    else if has_message m.id d
    then (err (driver dup_entry), d)
    else if not (has_chat m.chat_id d && has_user m.sender_id d && reply_exists m.reply_to_id d)
    then (err (driver no_referenced_row), d)
    else (ok tt, record d { messages = message_row m ∷ d.messages })

same_time : Option Time → Option Time → Bool
same_time none none = true
same_time none (some t) = false
same_time (some s) none = false
same_time (some s) (some t) = s == t

-- The update gives some column another value.
unfoldable pub is_edited : Message → MessageRow → Bool
unfolding same_time
is_edited m r = not (
    str_eq m.content r.content && same_time m.edited_at r.edited_at && m.updated_at == r.updated_at)

-- The number of the rows that changed.
unfoldable pub update_message : Message → Exec Db ℕ
unfolding is_live_message set_content message_checks text_fits is_edited
update_message m d =
    let found = any (is_live_message m.id) d.messages in
    if found && not (text_fits m.content)
    then (err (driver data_too_long), d)
    else if found && not (message_checks m)
    then (err (driver check_violated), d)
    else (
      ok (count_where (λ r. is_live_message m.id r && is_edited m r) d.messages),
      record d { messages = update_where (is_live_message m.id) (set_content m) d.messages },
    )

-- `ON DUPLICATE KEY UPDATE last_read_at = NOW(6)`
unfoldable pub upsert_receipt : Uuid → Uuid → Exec Db (Unit {0})
unfolding has_chat has_user
upsert_receipt chat_id user_id d =
    let same : ReceiptRow → Bool = (λ r. r.chat_id == chat_id && r.user_id == user_id) in
    if any same d.receipts
    then (
      ok tt,
      record d { receipts = update_where same (λ r. record r { last_read_at = d.now }) d.receipts },
    )
    else if not (has_chat chat_id d && has_user user_id d)
    then (err (driver no_referenced_row), d)
    else (
      ok tt,
      record d {
        receipts =
            record { chat_id = chat_id; user_id = user_id; last_read_at = d.now } ∷ d.receipts;
      },
    )

-- INSERT IGNORE cuts a text that is too long for its column, here VARCHAR(10).
unfoldable pub cut : ℕ → String → String
cut zero s = ""
cut (suc n) String.[] = ""
cut (suc n) (String.◌∷◌ c s) = String.◌∷◌ c (cut n s)

module _ (equal : String → String → Bool) where
  -- The primary key compares emojis by the collation of the column.
  unfoldable pub is_reaction : Uuid → Uuid → String → ReactionRow → Bool
  is_reaction message_id user_id emoji r =
      r.message_id == message_id && (r.user_id == user_id && equal r.emoji emoji)

  unfoldable pub reaction_row : Reaction → ReactionRow
  unfolding cut
  reaction_row x = record {
    message_id = x.message_id;
    user_id = x.user_id;
    emoji = cut 10 x.emoji;
    created_at = x.created_at;
  }

  -- INSERT IGNORE: a duplicate key, a missing message or user and a violated check are warnings, and
  -- no row is put.
  unfoldable pub insert_ignore_reaction : Reaction → Exec Db (Unit {0})
  unfolding reaction_row is_reaction has_message has_user
  insert_ignore_reaction x d =
      let r = reaction_row x in
      if not (leb 1 (count r.emoji))
      then (ok tt, d)
      else if any (is_reaction r.message_id r.user_id r.emoji) d.reactions
      then (ok tt, d)
      else if not (has_message r.message_id d && has_user r.user_id d)
      then (ok tt, d)
      else (ok tt, record d { reactions = r ∷ d.reactions })

  unfoldable pub delete_reaction : Uuid → Uuid → String → Exec Db (Unit {0})
  unfolding is_reaction
  delete_reaction message_id user_id emoji d = (
    ok tt,
    record d { reactions = where_ (λ r. not (is_reaction message_id user_id emoji r)) d.reactions },
  )
