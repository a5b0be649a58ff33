-- ===== src/Delivery/Http/Answers.antt =====
-- internal/delivery/http/handler: what every handler keeps, whatever the repositories do.
use vibechat.Prelude.{String, Option, none, some, ◌≢◌, refl, ap, ◌∙◌, Bool, true, false}
use vibechat.Domain.User.{Uuid, Time, UserRepository}
use vibechat.Domain.Chat.{Chat, ChatRepository}
use vibechat.Domain.Message.{MessageRepository}
use vibechat.UseCase.Message.Dto.{PageResult}
use vibechat.UseCase.User.Service.{TokenManager, PasswordHasher}
use vibechat.Delivery.Http.{Request, done, created, no_content}
use vibechat.Delivery.Http.Message
use vibechat.Delivery.Http.Message.{page_reply}
use vibechat.Delivery.Http.Chat
use vibechat.Delivery.Http.Chat.{opened}
use vibechat.Delivery.Http.User
use vibechat.Delivery.Http.Laws.{
  Answers, IsReply, parsed-Answers, result-Answers, respond-Answers, refused-Answers,
}
use vibechat.Delivery.Http.History.{get_history-some, clamp-bounds}
use vibechat.Exec.{ok}

done-IsReply : {A : Type 0} (a : A) → IsReply (done a)
done-IsReply a = (λ e. absurd (cc), λ e. absurd (cc))

created-IsReply : {A : Type 0} (a : A) → IsReply (created a)
created-IsReply a = (λ e. absurd (cc), λ e. absurd (cc))

no_content-IsReply : (a : Unit {0}) → IsReply {A = Unit {0}} no_content
no_content-IsReply a = (λ e. absurd (cc), λ e. absurd (cc))

opened-IsReply : (p : Chat × Bool) → IsReply (opened p)
unfolding opened
opened-IsReply (c, true) = created-IsReply c
opened-IsReply (c, false) = done-IsReply c

-- A page that was built.
page_reply-IsReply : (p : Option PageResult) → p ≢ none → IsReply (page_reply p)
unfolding page_reply
page_reply-IsReply none h = absurd (h refl)
page_reply-IsReply (some p) h = done-IsReply p

module _ {S : Type 0} (messages : MessageRepository S) (chats : ChatRepository S)
    (d : Message.Decoders) (caller : Uuid) (r : Request) (now : Time) (id : Uuid) where
  -- The handlers of messages.
  abbrev pub MessagesAnswer : Type 0
  MessagesAnswer =
      Answers (Message.send messages chats d caller r now id)
      × Answers (Message.get_history messages chats d caller r)
      × Answers (Message.edit messages chats d caller r now)
      × Answers (Message.delete messages chats d caller r)
      × Answers (Message.mark_read messages chats d caller r)
      × Answers (Message.add_reaction messages chats d caller r now)
      × Answers (Message.remove_reaction messages chats d caller r)

  messages-Answer : MessagesAnswer
  unfolding Message.send Message.get_history Message.edit Message.delete Message.mark_read
      Message.add_reaction Message.remove_reaction
  messages-Answer = (
    parsed-Answers _ _ λ chat_id. parsed-Answers _ _ λ b. respond-Answers _ _ created-IsReply,
    parsed-Answers _ _ λ chat_id. parsed-Answers _ _ λ c. result-Answers _ _ (λ s p e.
        page_reply-IsReply p
          (λ n. get_history-some messages chats caller _ s (clamp-bounds _).0 (e ∙ ap ok n))),
    parsed-Answers _ _ λ m. parsed-Answers _ _ λ i. respond-Answers _ _ done-IsReply,
    parsed-Answers _ _ λ m. respond-Answers _ _ no_content-IsReply,
    parsed-Answers _ _ λ m. respond-Answers _ _ no_content-IsReply,
    parsed-Answers _ _ λ m. parsed-Answers _ _ λ i. respond-Answers _ _ no_content-IsReply,
    parsed-Answers {A = Uuid} _ _ λ m. refused-Answers _ _ (respond-Answers _ _ no_content-IsReply),
  )

module _ {S : Type 0} (chats : ChatRepository S) (users : UserRepository S) (d : Chat.Decoders)
    (caller : Uuid) (r : Request) (now : Time) (id : Uuid) where
  -- The handlers of chats.
  abbrev pub ChatsAnswer : Type 0
  ChatsAnswer =
      Answers (Chat.create_direct chats users d caller r now id)
      × Answers (Chat.create_group chats users d caller r now id)
      × Answers (Chat.get_user_chats chats users d caller)
      × Answers (Chat.get_chat chats users d caller r)
      × Answers (Chat.update_group chats users d caller r now)
      × Answers (Chat.get_members chats users d caller r)
      × Answers (Chat.add_member chats users d caller r now)
      × Answers (Chat.remove_member chats users d caller r)
      × Answers (Chat.change_member_role chats users d caller r)
      × Answers (Chat.leave_chat chats users d caller r)

  chats-Answer : ChatsAnswer
  unfolding Chat.create_direct Chat.create_group Chat.get_user_chats Chat.get_chat Chat.update_group
      Chat.get_members Chat.add_member Chat.remove_member Chat.change_member_role Chat.leave_chat
  chats-Answer = (
    parsed-Answers _ _ λ i. respond-Answers _ _ opened-IsReply,
    parsed-Answers _ _ λ i. respond-Answers _ _ created-IsReply,
    respond-Answers _ _ done-IsReply,
    parsed-Answers _ _ λ c. respond-Answers _ _ done-IsReply,
    parsed-Answers _ _ λ c. parsed-Answers _ _ λ i. respond-Answers _ _ done-IsReply,
    parsed-Answers _ _ λ c. respond-Answers _ _ done-IsReply,
    parsed-Answers _ _ λ c. parsed-Answers _ _ λ i. respond-Answers _ _ no_content-IsReply,
    parsed-Answers _ _ λ c. parsed-Answers _ _ λ u. respond-Answers _ _ no_content-IsReply,
    parsed-Answers _ _
        λ c. parsed-Answers _ _ λ u. parsed-Answers _ _ λ i. respond-Answers _ _ no_content-IsReply,
    parsed-Answers _ _ λ c. respond-Answers _ _ no_content-IsReply,
  )

module _ {S : Type 0} (users : UserRepository S) (hasher : PasswordHasher) (jwt : TokenManager)
    (d : User.Decoders) (caller : Uuid) (r : Request) (now : Time) (id : Uuid) where
  -- The handlers of accounts.
  abbrev pub UsersAnswer : Type 0
  UsersAnswer =
      Answers (User.register users hasher jwt d r now id)
      × Answers (User.login users hasher jwt d r)
      × Answers (User.refresh_token users hasher jwt d r)
      × Answers (User.get_me users hasher jwt d caller)
      × Answers (User.update_me users hasher jwt d caller r now)
      × Answers (User.get_profile users hasher jwt d r)
      × Answers (User.search users hasher jwt d r)

  users-Answer : UsersAnswer
  unfolding User.register User.login User.refresh_token User.get_me User.update_me User.get_profile
      User.search
  users-Answer = (
    parsed-Answers _ _ λ i. respond-Answers _ _ created-IsReply,
    parsed-Answers _ _ λ i. respond-Answers _ _ done-IsReply,
    parsed-Answers {A = String} _ _ λ t. refused-Answers _ _ (respond-Answers _ _ done-IsReply),
    respond-Answers _ _ done-IsReply,
    parsed-Answers _ _ λ i. respond-Answers _ _ done-IsReply,
    parsed-Answers _ _ λ u. respond-Answers _ _ done-IsReply,
    respond-Answers _ _ done-IsReply,
  )

-- Over any repositories, hasher, tokens and decoders, each handler answers in every state without a
-- panic, and with "bad request" only as long as it has not changed the state.
pub handlers-Answer :
    {S : Type 0} (messages : MessageRepository S) (chats : ChatRepository S)
    (users : UserRepository S) (hasher : PasswordHasher) (jwt : TokenManager)
    (md : Message.Decoders) (cd : Chat.Decoders) (ud : User.Decoders) (caller : Uuid) (r : Request)
    (now : Time) (id : Uuid)
    → MessagesAnswer messages chats md caller r now id
      × ChatsAnswer chats users cd caller r now id
      × UsersAnswer users hasher jwt ud caller r now id
handlers-Answer messages chats users hasher jwt md cd ud caller r now id = (
  messages-Answer messages chats md caller r now id,
  chats-Answer chats users cd caller r now id,
  users-Answer users hasher jwt ud caller r now id,
)
