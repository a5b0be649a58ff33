-- ===== src/UseCase/Message/Faults.antt =====
-- internal/usecase/message/message.go over the handle behind a network: whatever statements fail,
-- a request is decided by the rules of `Exact` and happens as a whole or not at all.
use vibechat.Prelude.{none, some, Option}
use vibechat.Exec.{pure, ◌>>◌}
use vibechat.Exec.Runs.{Outcome, Runs, Reads, Runs-pure, Runs-guard, Runs-bind, Runs-bind-pure}
use vibechat.Exec.Reads.{Reads-guard, Reads-pure, Reads-bind}
use vibechat.Exec.Steps.{after_check, after_guard}
use vibechat.Domain.User.{Uuid, Time}
use vibechat.Domain.Chat.{ChatRepository}
use vibechat.Domain.Message.{MessageRepository}
use vibechat.Domain.Refines.{ChatRefines}
use vibechat.Domain.MessageRefines.{MessageRefines}
use vibechat.Storage.Connection.{tables, remote, World}
use vibechat.Storage.Connection.Laws.{Any, shown, remote-IsConnection}
use vibechat.Storage.Postgres.Chat.{chat_repository}
use vibechat.Storage.Postgres.Message
use vibechat.Storage.Postgres.Message.{message_repository}
use vibechat.Storage.Postgres.MessageRefines.{
  message_repository-MessageReads, message_repository-MessageRefines,
}
use vibechat.Storage.Postgres.Refines.{chat_repository-ChatReads, chat_repository-ChatRefines}
use vibechat.Storage.Sql.Chats.{has_member}
use vibechat.Storage.Sql.Users.{Collation}
use vibechat.UseCase.Chat.Policy.{settle, ◌▸◌}
use vibechat.UseCase.Message.Dto.{SendInput, EditInput, validate_send, validate_edit}
use vibechat.UseCase.Message.Service
use vibechat.UseCase.Message.Service.{
  assert_member, check_reply, new_message, edited_message, new_reaction,
}
use vibechat.UseCase.Message.Exact.{
  message_in, may_change, may_belong, may_reply, with_message, edit_exact, delete_exact, send_exact,
}

module _ (col : Collation) where
  abbrev pub messages : MessageRepository World
  messages = message_repository remote col

  abbrev pub chats : ChatRepository World
  chats = chat_repository remote

  mr : MessageRefines messages (message_repository tables col) shown Any
  mr = message_repository-MessageRefines remote shown Any remote-IsConnection col

  cr : ChatRefines chats (chat_repository tables) shown Any
  cr = chat_repository-ChatRefines remote shown Any remote-IsConnection

  member-Runs :
      (c u : Uuid)
      → Runs shown Any
          (assert_member messages chats c u)
          (assert_member (message_repository tables col) (chat_repository tables) c u)
  unfolding assert_member
  member-Runs c u =
      Runs-bind _ _ _ _ (cr.is_member-Runs c u) (chat_repository-ChatReads.is_member-Reads c u)
        λ b. Runs-guard b _

  member-Reads :
      (c u : Uuid)
      → Reads (assert_member (message_repository tables col) (chat_repository tables) c u)
  unfolding assert_member
  member-Reads c u =
      Reads-bind _ _ (chat_repository-ChatReads.is_member-Reads c u) λ b. Reads-guard b _

  reply-Runs :
      (c : Uuid) (o : Option Uuid)
      → Runs shown Any
          (check_reply messages chats c o)
          (check_reply (message_repository tables col) (chat_repository tables) c o)
  unfolding check_reply
  reply-Runs c none = Runs-pure tt
  reply-Runs c (some id) =
      Runs-bind _ _ _ _ (mr.get_by_id-Runs id)
        ((message_repository-MessageReads col).get_by_id-Reads id) λ m. Runs-guard _ _

  reply-Reads :
      (c : Uuid) (o : Option Uuid)
      → Reads (check_reply (message_repository tables col) (chat_repository tables) c o)
  unfolding check_reply
  reply-Reads c none = Reads-pure tt
  reply-Reads c (some id) =
      Reads-bind _ _ ((message_repository-MessageReads col).get_by_id-Reads id) λ m. Reads-guard _ _

  send-Runs :
      (u : Uuid) (i : SendInput) (now : Time) (id : Uuid)
      → Runs shown Any
          (Service.send messages chats u i now id)
          (Service.send (message_repository tables col) (chat_repository tables) u i now id)
  unfolding Service.send
  send-Runs u i now id = after_check _ _ _ (
      Runs-bind _ _ _ _ (member-Runs _ u) (member-Reads _ u) λ _.
        Runs-bind _ _ _ _ (reply-Runs _ _) (reply-Reads _ _)
          λ _. Runs-bind-pure _ _ _ (mr.create-Runs _))

  edit-Runs :
      (id u : Uuid) (i : EditInput) (now : Time)
      → Runs shown Any
          (Service.edit messages chats id u i now)
          (Service.edit (message_repository tables col) (chat_repository tables) id u i now)
  unfolding Service.edit
  edit-Runs id u i now = after_check _ _ _ (
      Runs-bind _ _ _ _ (mr.get_by_id-Runs id)
        ((message_repository-MessageReads col).get_by_id-Reads id)
        λ m. after_guard _ _ _ _ (
          after_guard _ _ _ _ (
            Runs-bind _ _ _ _ (member-Runs _ u) (member-Reads _ u)
              λ _. Runs-bind-pure _ _ _ (mr.update-Runs _))))

  delete-Runs :
      (id u : Uuid)
      → Runs shown Any
          (Service.delete messages chats id u)
          (Service.delete (message_repository tables col) (chat_repository tables) id u)
  unfolding Service.delete
  delete-Runs id u =
      Runs-bind _ _ _ _ (mr.get_by_id-Runs id)
        ((message_repository-MessageReads col).get_by_id-Reads id)
        λ m. after_guard _ _ _ _ (
          after_guard _ _ _ _
            (Runs-bind _ _ _ _ (member-Runs _ u) (member-Reads _ u) λ _. mr.delete-Runs id))

  -- Send over any pattern of failing statements: it ends with an error of the driver and the tables
  -- are as before, or it ends as the rules decide. They ask for a valid input, a sender who is a
  -- member of the chat, and a reply to a message of the same chat, and then the message is
  -- inserted.
  pub send_at :
      (u : Uuid) (i : SendInput) (now : Time) (id : Uuid) (w : World)
      → Outcome shown w (Service.send messages chats u i now id w) (
          settle
            (validate_send i
              ▸ may_belong (has_member i.chat_id u w.db)
              ▸ may_reply i.chat_id (λ k. message_in k w.db) i.reply_to_id)
            (do Message.create tables col (new_message id u i now); pure (new_message id u i now))
            w.db)
  send_at u i now id w = rw (← send_exact col u i now id w.db) ((send-Runs u i now id).at w tt).1

  -- Edit over any pattern of failing statements: it ends with an error of the driver and the tables
  -- are as before, or it ends as the rules decide. They ask for a valid input, a message that is
  -- there and not deleted, and a caller who is its author and a member of its chat, and then the
  -- message that was read is written with the new content.
  pub edit_at :
      (id u : Uuid) (i : EditInput) (now : Time) (w : World)
      → Outcome shown w (Service.edit messages chats id u i now w) (
          settle
            (validate_edit i ▸ may_change u (λ c. has_member c u w.db) (message_in id w.db))
            (with_message
              (λ m. do
                Message.update tables col (edited_message m i.content now)
                pure (edited_message m i.content now))
              (message_in id w.db))
            w.db)
  edit_at id u i now w = rw (← edit_exact col id u i now w.db) ((edit-Runs id u i now).at w tt).1

  -- Delete over any pattern of failing statements: it ends with an error of the driver and the
  -- tables are as before, or it ends as the rules decide. They ask for a message that is there and
  -- not deleted, and a caller who is its author and a member of its chat, and then the message is
  -- marked as deleted.
  pub delete_at :
      (id u : Uuid) (w : World)
      → Outcome shown w (Service.delete messages chats id u w) (
          settle
            (may_change u (λ c. has_member c u w.db) (message_in id w.db))
            (Message.delete tables col id)
            w.db)
  delete_at id u w = rw (← delete_exact col id u w.db) ((delete-Runs id u).at w tt).1
