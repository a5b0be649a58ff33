-- ===== src/UseCase/Message/Service.antt =====
-- internal/usecase/message/message.go: the service over any two repositories that share a state.
-- The last arguments of an operation that needs them are what time.Now() and uuid.New() return.
use vibechat.Prelude.{
  String, not, List, [], ◌∷◌, Option, none, some, ◌==◌, str_eq, if◌then◌else◌, map, find_first,
}
use vibechat.Exec.{Exec, pure, lift, guard, ◌>>=◌, ◌>>◌}
use vibechat.Domain.Errors.{not_chat_member, message_not_found, message_deleted, not_message_author}
use vibechat.Domain.User.{Uuid, Time}
use vibechat.Domain.Chat.{ChatRepository}
use vibechat.Domain.Message.{
  Message, MessageType, text, image, file, MessageRepository, Reaction, is_deleted, is_authored_by,
}
use vibechat.UseCase.Message.Dto.{
  SendInput, EditInput, ListInput, ReactInput, PageResult, validate_send, validate_edit,
  validate_react, build_page_result,
}

-- The type of a text that has passed the validation.
unfoldable pub type_of : String → MessageType
type_of s = if str_eq s "text" then text else if str_eq s "image" then image else file

unfoldable pub new_message : Uuid → Uuid → SendInput → Time → Message
unfolding type_of
new_message id sender_id i now = record {
  id = id;
  chat_id = i.chat_id;
  sender_id = sender_id;
  content = i.content;
  type = type_of i.type;
  reply_to_id = i.reply_to_id;
  edited_at = none;
  deleted_at = none;
  created_at = now;
  updated_at = now;
  sender = none;
  reactions = [];
}

unfoldable pub edited_message : Message → String → Time → Message
edited_message m content now = record m {
  content = content;
  edited_at = some now;
  updated_at = now;
}

unfoldable pub new_reaction : Uuid → Uuid → String → Time → Reaction
new_reaction message_id user_id emoji now = record {
  message_id = message_id;
  user_id = user_id;
  emoji = emoji;
  created_at = now;
  user = none;
}

-- `reactionsByMsg[m.ID]`, nil without an entry.
unfoldable pub reactions_for : List (Uuid × List Reaction) → Uuid → List Reaction
reactions_for table id = elim (find_first (λ p. p.0 == id) table) [ none ↦ [] | some p ↦ p.1 ]

unfoldable pub with_reactions : List (Uuid × List Reaction) → List Message → List Message
unfolding reactions_for
with_reactions table [] = []
with_reactions table (m ∷ ms) =
    record m { reactions = reactions_for table m.id } ∷ with_reactions table ms

module _ {S : Type 0} (messages : MessageRepository S) (chats : ChatRepository S) where
  unfoldable pub assert_member : Uuid → Uuid → Exec S (Unit {0})
  assert_member chat_id user_id = do
    found ← chats.is_member chat_id user_id
    guard found not_chat_member

  -- A reply stays in the chat of what it replies to.
  unfoldable pub check_reply : Uuid → Option Uuid → Exec S (Unit {0})
  check_reply chat_id none = pure tt
  check_reply chat_id (some id) = do
    reply ← messages.get_by_id id
    guard (reply.chat_id == chat_id) message_not_found

  unfoldable pub send : Uuid → SendInput → Time → Uuid → Exec S Message
  unfolding assert_member check_reply new_message
  send sender_id i now id = do
    lift (validate_send i)
    assert_member i.chat_id sender_id
    check_reply i.chat_id i.reply_to_id
    messages.create (new_message id sender_id i now)
    pure (new_message id sender_id i now)

  unfoldable pub edit : Uuid → Uuid → EditInput → Time → Exec S Message
  unfolding assert_member edited_message
  edit message_id caller_id i now = do
    lift (validate_edit i)
    m ← messages.get_by_id message_id
    guard (not (is_deleted m)) message_deleted
    guard (is_authored_by m caller_id) not_message_author
    assert_member m.chat_id caller_id
    messages.update (edited_message m i.content now)
    pure (edited_message m i.content now)

  unfoldable pub delete : Uuid → Uuid → Exec S (Unit {0})
  unfolding assert_member
  delete message_id caller_id = do
    m ← messages.get_by_id message_id
    guard (not (is_deleted m)) message_deleted
    guard (is_authored_by m caller_id) not_message_author
    assert_member m.chat_id caller_id
    messages.delete message_id

  unfoldable pub mark_read : Uuid → Uuid → Exec S (Unit {0})
  unfolding assert_member
  mark_read chat_id caller_id = do
    assert_member chat_id caller_id
    messages.mark_read chat_id caller_id

  -- A page that is not empty gets its reactions.
  unfoldable pub add_reactions : List Message → Exec S (List Message)
  unfolding with_reactions
  add_reactions [] = pure []
  add_reactions (m ∷ ms) = do
    table ← messages.get_reactions_batch (map (λ (x : Message). x.id) (m ∷ ms))
    pure (with_reactions table (m ∷ ms))

  -- `none` is a panic.
  unfoldable pub get_history : Uuid → ListInput → Exec S (Option PageResult)
  unfolding assert_member add_reactions build_page_result
  get_history caller_id i = do
    assert_member i.chat_id caller_id
    msgs ← messages.get_chat_messages i.chat_id i.cursor i.limit
    msgs' ← add_reactions msgs
    pure (build_page_result msgs' i.limit)

  unfoldable pub add_reaction : Uuid → Uuid → ReactInput → Time → Exec S (Unit {0})
  unfolding assert_member new_reaction
  add_reaction message_id caller_id i now = do
    lift (validate_react i)
    m ← messages.get_by_id message_id
    guard (not (is_deleted m)) message_deleted
    assert_member m.chat_id caller_id
    messages.add_reaction (new_reaction message_id caller_id i.emoji now)

  unfoldable pub remove_reaction : Uuid → Uuid → ReactInput → Exec S (Unit {0})
  unfolding assert_member
  remove_reaction message_id caller_id i = do
    lift (validate_react i)
    m ← messages.get_by_id message_id
    guard (not (is_deleted m)) message_deleted
    assert_member m.chat_id caller_id
    messages.remove_reaction message_id caller_id i.emoji
