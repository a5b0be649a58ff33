-- ===== src/Tests/Messages.antt =====
-- The theorems about messages, on one message of Cid to the group of `Data`.
use vibechat.Prelude.{refl, ◌++◌, any, ◌==◌, false, take, ◌≡◌, none, some, [], ◌∷◌, if◌then◌else◌}
use vibechat.Exec.{ok, pure, ◌>>◌}
use vibechat.Domain.Message.{text, Message}
use vibechat.Storage.Tables.{Db, MessageRow}
use vibechat.Storage.Connection.{tables, World}
use vibechat.Storage.Postgres.Chat.{chat_repository}
use vibechat.Storage.Postgres.Message
use vibechat.Storage.Postgres.Message.{message_repository}
use vibechat.Storage.Sql.Chats.{has_member}
use vibechat.UseCase.Chat.Policy.{settle, ◌▸◌}
use vibechat.UseCase.Message.Dto.{
  SendInput, EditInput, ReactInput, validate_send, validate_edit, validate_react,
}
use vibechat.UseCase.Message.Service.{
  send, edit, delete, add_reaction, new_message, edited_message, new_reaction,
}
use vibechat.UseCase.Message.Service
use vibechat.UseCase.Message.Faults
use vibechat.Exec.Runs.{Outcome}
use vibechat.Storage.Connection.Laws.{shown}
use vibechat.UseCase.Message.Exact
use vibechat.UseCase.Message.Exact.{
  message_in, may_change, may_react, may_belong, may_reply, with_message,
}
use vibechat.Tests.Data.{col, db, account}
use vibechat.Storage.Order.{order_by, insert}
use vibechat.Storage.Sql.Previews.{newer, is_live_message_of}
use vibechat.Storage.Sql.Messages.{join_senders, with_sender, scan_message}
use vibechat.Storage.Postgres.History
use vibechat.Storage.Postgres.History.{history, cursor_of}
use vibechat.UseCase.Message.Pages
use vibechat.UseCase.Message.Dto.{build_page_result}

abbrev hello : MessageRow
hello = record {
  id = 20;
  chat_id = 10;
  sender_id = 3;
  content = "hello";
  type = text;
  reply_to_id = none;
  edited_at = none;
  deleted_at = none;
  created_at = 8;
  updated_at = 8;
}

abbrev talk : Db
talk = record db { messages = hello ∷ [] }

abbrev correction : EditInput
correction = record { content = "Hello" }

-- The third statement fails.
abbrev line : World
line = record { db = talk; sent = 0; faults = λ n. if n == 2 then some 7 else none }

edit_at_example :
    Outcome shown line
      (Service.edit (Faults.messages col) (Faults.chats col) 20 3 correction 9 line)
      (settle
        (validate_edit correction ▸ may_change 3 (λ c. has_member c 3 talk) (message_in 20 talk))
        (with_message
          (λ m. do
            Message.update tables col (edited_message m "Hello" 9)
            pure (edited_message m "Hello" 9))
          (message_in 20 talk))
        talk)
edit_at_example = Faults.edit_at col 20 3 correction 9 line

delete_at_example :
    Outcome shown line (Service.delete (Faults.messages col) (Faults.chats col) 20 3 line) (
      settle
        (may_change 3 (λ c. has_member c 3 talk) (message_in 20 talk))
        (Message.delete tables col 20)
        talk)
delete_at_example = Faults.delete_at col 20 3 line

abbrev smile : ReactInput
smile = record { emoji = ":)" }

add_reaction_exact_example :
    add_reaction (message_repository tables col) (chat_repository tables) 20 1 smile 9 talk
    ≡ settle
        (validate_react smile ▸ may_react (λ c. has_member c 1 talk) (message_in 20 talk))
        (Message.add_reaction tables col (new_reaction 20 1 ":)" 9))
        talk
add_reaction_exact_example = Exact.add_reaction_exact col 20 1 smile 9 talk

abbrev reply : SendInput
reply = record { chat_id = 10; content = "hi"; type = "text"; reply_to_id = some 20 }

send_at_example :
    Outcome shown line (Service.send (Faults.messages col) (Faults.chats col) 1 reply 9 21 line) (
      settle
        (validate_send reply
          ▸ may_belong (has_member 10 1 talk)
          ▸ may_reply 10 (λ id. message_in id talk) (some 20))
        (do Message.create tables col (new_message 21 1 reply 9); pure (new_message 21 1 reply 9))
        talk)
send_at_example = Faults.send_at col 1 reply 9 21 line

-- Two messages of one moment, and a page that ends with the second.
abbrev hello_again : MessageRow
hello_again = record hello { id = 21 }

abbrev chatter : Db
chatter = record db { messages = hello ∷ hello_again ∷ [] }

abbrev sent : MessageRow → Message
sent r = record (scan_message r) {
  sender = some (record (account 3 "cid" "cid@example.com").user { password_hash = "" });
}

chatter-history : history 10 chatter ≡ [] ++ sent hello_again ∷ sent hello ∷ []
unfolding order_by newer insert is_live_message_of join_senders with_sender scan_message
chatter-history = refl

other_id : any (λ (n : Message). n.id == (sent hello_again).id) (sent hello ∷ []) ≡ false
unfolding scan_message
other_id = refl

next_page_example :
    Message.get_chat_messages tables col 10 (some (cursor_of (sent hello_again))) 30 chatter
    ≡ (ok (take 30 (sent hello ∷ [])), chatter)
next_page_example =
    History.next_page col 10 chatter (sent hello_again) [] (sent hello ∷ []) 30 chatter-history
      other_id

build_page_result_lem_example :
    (build_page_result [] 2 ≡ some (record { messages = []; next_cursor = none }))
    × (build_page_result ((sent hello_again ∷ []) ++ sent hello ∷ []) 2
        ≡ some (record {
          messages = (sent hello_again ∷ []) ++ sent hello ∷ [];
          next_cursor = some (cursor_of (sent hello));
        }))
build_page_result_lem_example = Pages.build_page_result_lem 1 (sent hello_again ∷ []) (sent hello)
