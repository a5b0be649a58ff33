-- ===== src/Delivery/Http/Message.antt =====
-- internal/delivery/http/handler/message.go: the handlers of messages, for a caller that the
-- middleware has admitted.
use vibechat.Prelude.{
  String, str_eq, ◌==◌, Option, none, some, if◌then◌else◌, ℤ, pos, leb_ℤ, to_ℕ, not,
}
use vibechat.Exec.{Exec, pure}
use vibechat.Domain.User.{Uuid, Time, nil_uuid}
use vibechat.Domain.Message.{Message, MessageCursor, MessageRepository}
use vibechat.Domain.Chat.{ChatRepository}
use vibechat.UseCase.Message.Dto.{SendInput, EditInput, ReactInput, PageResult}
use vibechat.UseCase.Message.Service
use vibechat.Delivery.Http.{
  Request, Response, done, created, no_content, bad_request, panicked, respond, parsed, query_int,
}

-- The body of `Send`.
pub record SendBody : Type 0 where
  pub content : String
  pub type : String
  pub reply_to_id : Option Uuid

pub record Decoders : Type 0 where
  pub uuid : String → Option Uuid
  pub time : String → Option Time
  pub atoi : String → Option ℤ
  pub send_body : String → Option SendBody
  pub edit_input : String → Option EditInput
  pub react_input : String → Option ReactInput

-- A reply to the zero uuid is no reply.
unfoldable pub reply_to : Option Uuid → Option Uuid
reply_to none = none
reply_to (some id) = if id == nil_uuid then none else some id

unfoldable pub send_input : Uuid → SendBody → SendInput
unfolding reply_to
send_input chat_id b = record {
  chat_id = chat_id;
  content = b.content;
  type = if str_eq b.type "" then "text" else b.type;
  reply_to_id = reply_to b.reply_to_id;
}

-- `if limit < 1 { limit = 30 } else if limit > 100 { limit = 100 }`
unfoldable pub clamp : ℤ → ℤ
clamp limit =
    if not (leb_ℤ (pos 1) limit)
    then pos 30
    else if not (leb_ℤ limit (pos 100))
    then pos 100
    else limit

unfoldable pub cursor_at : Option Uuid → Option Time → Option (Option MessageCursor)
cursor_at (some id) (some t) = some (some (record { created_at = t; id = id }))
cursor_at (some id) none = none
cursor_at none t = none

-- The outer `none` is a cursor that does not parse.
unfoldable pub cursor_of_query : Decoders → String → String → Option (Option MessageCursor)
unfolding cursor_at
cursor_of_query d id ts = if str_eq id "" then some none else cursor_at (d.uuid id) (d.time ts)

unfoldable pub page_reply : Option PageResult → Response PageResult
page_reply none = panicked
page_reply (some page) = done page

module _ {S : Type 0} (messages : MessageRepository S) (chats : ChatRepository S) (d : Decoders)
    (caller : Uuid) where
  unfoldable pub send : Request → Time → Uuid → Exec S (Response Message)
  send r now id = parsed (d.uuid (r.path_value "chat_id")) λ chat_id.
      parsed (d.send_body r.body)
        λ b. respond created (Service.send messages chats caller (send_input chat_id b) now id)

  unfoldable pub get_history : Request → Exec S (Response PageResult)
  get_history r = parsed (d.uuid (r.path_value "chat_id")) λ chat_id.
      parsed (cursor_of_query d (r.query "cursor_id") (r.query "cursor_ts")) λ cursor.
        respond page_reply (
          Service.get_history messages chats caller (record {
            chat_id = chat_id;
            cursor = cursor;
            limit = to_ℕ (clamp (query_int d.atoi (r.query "limit") (pos 30)));
          }))

  unfoldable pub edit : Request → Time → Exec S (Response Message)
  edit r now = parsed (d.uuid (r.path_value "msg_id")) λ msg_id.
      parsed (d.edit_input r.body)
        λ i. respond done (Service.edit messages chats msg_id caller i now)

  unfoldable pub delete : Request → Exec S (Response (Unit {0}))
  delete r =
      parsed (d.uuid (r.path_value "msg_id"))
        λ msg_id. respond (λ _. no_content) (Service.delete messages chats msg_id caller)

  unfoldable pub mark_read : Request → Exec S (Response (Unit {0}))
  mark_read r =
      parsed (d.uuid (r.path_value "chat_id"))
        λ chat_id. respond (λ _. no_content) (Service.mark_read messages chats chat_id caller)

  unfoldable pub add_reaction : Request → Time → Exec S (Response (Unit {0}))
  add_reaction r now = parsed (d.uuid (r.path_value "msg_id")) λ msg_id.
      parsed (d.react_input r.body)
        λ i. respond (λ _. no_content) (Service.add_reaction messages chats msg_id caller i now)

  unfoldable pub remove_reaction : Request → Exec S (Response (Unit {0}))
  remove_reaction r = parsed (d.uuid (r.path_value "msg_id")) λ msg_id.
      let emoji = r.query "emoji" in
      if str_eq emoji ""
      then pure bad_request
      else respond (λ _. no_content)
          (Service.remove_reaction messages chats msg_id caller (record { emoji = emoji }))
