-- ===== src/Delivery/Http/Chat.antt =====
-- internal/delivery/http/handler/chat.go: the handlers of chats, for a caller that the middleware has
-- admitted.
use vibechat.Prelude.{String, Bool, List, Option, if◌then◌else◌}
use vibechat.Exec.{Exec}
use vibechat.Domain.User.{Uuid, Time, UserRepository}
use vibechat.Domain.Chat.{Chat, ChatMember, ChatPreview, ChatRepository}
use vibechat.UseCase.Chat.Dto.{
  CreateDirectInput, CreateGroupInput, UpdateGroupInput, AddMemberInput, ChangeMemberRoleInput,
}
use vibechat.UseCase.Chat.Service
use vibechat.Delivery.Http.{Request, Response, done, created, no_content, respond, parsed}

-- uuid.Parse and the decoding of each body.
pub record Decoders : Type 0 where
  pub uuid : String → Option Uuid
  pub create_direct_input : String → Option CreateDirectInput
  pub create_group_input : String → Option CreateGroupInput
  pub update_group_input : String → Option UpdateGroupInput
  pub add_member_input : String → Option AddMemberInput
  pub change_member_role_input : String → Option ChangeMemberRoleInput

unfoldable pub opened : Chat × Bool → Response Chat
opened (c, is_new) = if is_new then created c else done c

module _ {S : Type 0} (chats : ChatRepository S) (users : UserRepository S) (d : Decoders)
    (caller : Uuid) where
  unfoldable pub create_direct : Request → Time → Uuid → Exec S (Response Chat)
  create_direct r now id =
      parsed (d.create_direct_input r.body)
        λ i. respond opened (Service.create_direct chats users caller i now id)

  unfoldable pub create_group : Request → Time → Uuid → Exec S (Response Chat)
  create_group r now id =
      parsed (d.create_group_input r.body)
        λ i. respond created (Service.create_group chats users caller i now id)

  unfoldable pub get_user_chats : Exec S (Response (List ChatPreview))
  get_user_chats = respond done (Service.get_user_chats chats users caller)

  unfoldable pub get_chat : Request → Exec S (Response Chat)
  get_chat r =
      parsed (d.uuid (r.path_value "chat_id"))
        λ chat_id. respond done (Service.get_chat chats users chat_id caller)

  unfoldable pub update_group : Request → Time → Exec S (Response Chat)
  update_group r now = parsed (d.uuid (r.path_value "chat_id")) λ chat_id.
      parsed (d.update_group_input r.body)
        λ i. respond done (Service.update_group chats users chat_id caller i now)

  unfoldable pub get_members : Request → Exec S (Response (List ChatMember))
  get_members r =
      parsed (d.uuid (r.path_value "chat_id"))
        λ chat_id. respond done (Service.get_members chats users chat_id caller)

  unfoldable pub add_member : Request → Time → Exec S (Response (Unit {0}))
  add_member r now = parsed (d.uuid (r.path_value "chat_id")) λ chat_id.
      parsed (d.add_member_input r.body)
        λ i. respond (λ _. no_content) (Service.add_member chats users chat_id caller i now)

  unfoldable pub remove_member : Request → Exec S (Response (Unit {0}))
  remove_member r = parsed (d.uuid (r.path_value "chat_id")) λ chat_id.
      parsed (d.uuid (r.path_value "user_id")) λ target_id.
        respond (λ _. no_content) (Service.remove_member chats users chat_id caller target_id)

  -- The user of the path takes the place of the user of the body.
  unfoldable pub change_member_role : Request → Exec S (Response (Unit {0}))
  change_member_role r = parsed (d.uuid (r.path_value "chat_id")) λ chat_id.
      parsed (d.uuid (r.path_value "user_id")) λ target_id.
        parsed (d.change_member_role_input r.body) λ i.
          respond (λ _. no_content)
            (Service.change_member_role chats users chat_id caller
              (record i { user_id = target_id }))

  unfoldable pub leave_chat : Request → Exec S (Response (Unit {0}))
  leave_chat r =
      parsed (d.uuid (r.path_value "chat_id"))
        λ chat_id. respond (λ _. no_content) (Service.leave_chat chats users chat_id caller)
