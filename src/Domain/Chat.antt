-- ===== src/Domain/Chat.antt =====
-- internal/domain/chat.go: chats, their members and the interface of their storage.
use vibechat.Prelude.{ℕ, String, Bool, true, false, ◌||◌, List, Option}
use vibechat.Exec.{Exec}
use vibechat.Domain.User.{Uuid, Time, User}
use vibechat.Domain.Message.{Message}

pub data ChatType : Type 0 where
  direct group : ChatType

pub data MemberRole : Type 0 where
  owner admin member : MemberRole

pub record Chat : Type 0 where
  pub id : Uuid
  pub type : ChatType
  pub name : String
  pub avatar_url : String
  pub description : String
  pub created_by : Uuid
  pub created_at : Time
  pub updated_at : Time

pub record ChatMember : Type 0 where
  pub chat_id : Uuid
  pub user_id : Uuid
  pub role : MemberRole
  pub joined_at : Time
  pub user : Option User

pub record ChatPreview : Type 0 where
  pub chat : Chat
  pub members : List ChatMember
  pub last_message : Option Message
  pub unread_count : ℕ

unfoldable pub type_is_direct : ChatType → Bool
type_is_direct direct = true
type_is_direct group = false

unfoldable pub is_direct : Chat → Bool
unfolding type_is_direct
is_direct c = type_is_direct c.type

-- `r == MemberRoleOwner` and `r == MemberRoleAdmin`
unfoldable pub is_owner : MemberRole → Bool
is_owner owner = true
is_owner _ = false

unfoldable pub is_admin : MemberRole → Bool
is_admin admin = true
is_admin _ = false

unfoldable pub can_manage_members : MemberRole → Bool
unfolding is_owner is_admin
can_manage_members r = is_owner r || is_admin r

-- `ChatRepository`, as actions on a state `S` that the implementation chooses.
pub record ChatRepository (S : Type 0) : Type 0 where
  pub create_with_members : Chat → List ChatMember → Exec S (Unit {0})
  pub get_by_id : Uuid → Exec S Chat
  pub update : Chat → Exec S (Unit {0})
  pub delete : Uuid → Exec S (Unit {0})
  pub add_member : ChatMember → Exec S (Unit {0})
  pub remove_member : Uuid → Uuid → Exec S (Unit {0})
  pub get_member : Uuid → Uuid → Exec S ChatMember
  pub get_members : Uuid → Exec S (List ChatMember)
  pub update_member_role : Uuid → Uuid → MemberRole → Exec S (Unit {0})
  pub get_user_chats : Uuid → Exec S (List ChatPreview)
  pub get_direct_chat : Uuid → Uuid → Exec S Chat
  pub is_member : Uuid → Uuid → Exec S Bool
