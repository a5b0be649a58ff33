-- ===== src/Domain/Message.antt =====
-- internal/domain/message.go: messages, reactions, the cursor and the interface of their storage.
use vibechat.Prelude.{ℕ, String, Bool, List, Option, ◌==◌, is_some}
use vibechat.Exec.{Exec}
use vibechat.Domain.User.{Uuid, Time, User}

pub data MessageType : Type 0 where
  text image file : MessageType

pub record Reaction : Type 0 where
  pub message_id : Uuid
  pub user_id : Uuid
  pub emoji : String
  pub created_at : Time
  pub user : Option User

-- `ReplyTo`, which nothing in the repository sets, is left out.
pub record Message : Type 0 where
  pub id : Uuid
  pub chat_id : Uuid
  pub sender_id : Uuid
  pub content : String
  pub type : MessageType
  pub reply_to_id : Option Uuid
  pub edited_at : Option Time
  pub deleted_at : Option Time
  pub created_at : Time
  pub updated_at : Time
  pub sender : Option User
  pub reactions : List Reaction

unfoldable pub is_deleted : Message → Bool
is_deleted m = is_some m.deleted_at

unfoldable pub is_authored_by : Message → Uuid → Bool
is_authored_by m user_id = m.sender_id == user_id

pub record MessageCursor : Type 0 where
  pub created_at : Time
  pub id : Uuid

-- `MessageRepository`, as actions on a state `S` that the implementation chooses.
pub record MessageRepository (S : Type 0) : Type 0 where
  pub create : Message → Exec S (Unit {0})
  pub get_by_id : Uuid → Exec S Message
  pub get_chat_messages : Uuid → Option MessageCursor → ℕ → Exec S (List Message)
  pub update : Message → Exec S (Unit {0})
  pub delete : Uuid → Exec S (Unit {0})
  pub mark_read : Uuid → Uuid → Exec S (Unit {0})
  pub get_unread_count : Uuid → Uuid → Exec S ℕ
  pub add_reaction : Reaction → Exec S (Unit {0})
  pub remove_reaction : Uuid → Uuid → String → Exec S (Unit {0})
  pub get_reactions : Uuid → Exec S (List Reaction)
  pub get_reactions_batch : List Uuid → Exec S (List (Uuid × List Reaction))
