-- ===== src/Domain/Refines.antt =====
-- What a repository promises its clients: each of its operations runs as that of a specification,
-- and the operations that a specification reads with change nothing.
use vibechat.Prelude.{ℕ, String, List}
use vibechat.Exec.Runs.{Runs, Reads}
use vibechat.Domain.User.{Uuid, Time, User, UserStatus, UserRepository}
use vibechat.Domain.Chat.{Chat, ChatMember, MemberRole, ChatRepository}

pub record ChatReads {D : Type 0} (spec : ChatRepository D) : Type 0 where
  pub get_by_id-Reads : (id : Uuid) → Reads (spec.get_by_id id)
  pub get_member-Reads : (c u : Uuid) → Reads (spec.get_member c u)
  pub get_members-Reads : (c : Uuid) → Reads (spec.get_members c)
  pub get_user_chats-Reads : (u : Uuid) → Reads (spec.get_user_chats u)
  pub get_direct_chat-Reads : (u v : Uuid) → Reads (spec.get_direct_chat u v)
  pub is_member-Reads : (c u : Uuid) → Reads (spec.is_member c u)

pub record ChatRefines {S D : Type 0} (repo : ChatRepository S) (spec : ChatRepository D)
    (view : S → D) (Inv : S → Type 0) : Type 0 where
  pub create_with_members-Runs :
      (c : Chat) (ms : List ChatMember)
      → Runs view Inv (repo.create_with_members c ms) (spec.create_with_members c ms)
  pub get_by_id-Runs : (id : Uuid) → Runs view Inv (repo.get_by_id id) (spec.get_by_id id)
  pub update-Runs : (c : Chat) → Runs view Inv (repo.update c) (spec.update c)
  pub delete-Runs : (id : Uuid) → Runs view Inv (repo.delete id) (spec.delete id)
  pub add_member-Runs : (m : ChatMember) → Runs view Inv (repo.add_member m) (spec.add_member m)
  pub remove_member-Runs :
      (c u : Uuid) → Runs view Inv (repo.remove_member c u) (spec.remove_member c u)
  pub get_member-Runs : (c u : Uuid) → Runs view Inv (repo.get_member c u) (spec.get_member c u)
  pub get_members-Runs : (c : Uuid) → Runs view Inv (repo.get_members c) (spec.get_members c)
  pub update_member_role-Runs :
      (c u : Uuid) (r : MemberRole)
      → Runs view Inv (repo.update_member_role c u r) (spec.update_member_role c u r)
  pub get_user_chats-Runs :
      (u : Uuid) → Runs view Inv (repo.get_user_chats u) (spec.get_user_chats u)
  pub get_direct_chat-Runs :
      (u v : Uuid) → Runs view Inv (repo.get_direct_chat u v) (spec.get_direct_chat u v)
  pub is_member-Runs : (c u : Uuid) → Runs view Inv (repo.is_member c u) (spec.is_member c u)

pub record UserReads {D : Type 0} (spec : UserRepository D) : Type 0 where
  pub get_by_id-Reads : (id : Uuid) → Reads (spec.get_by_id id)
  pub get_by_email-Reads : (e : String) → Reads (spec.get_by_email e)
  pub get_by_username-Reads : (n : String) → Reads (spec.get_by_username n)
  pub search-Reads : (q : String) (limit offset : ℕ) → Reads (spec.search q limit offset)

pub record UserRefines {S D : Type 0} (repo : UserRepository S) (spec : UserRepository D)
    (view : S → D) (Inv : S → Type 0) : Type 0 where
  pub create-Runs : (u : User) → Runs view Inv (repo.create u) (spec.create u)
  pub get_by_id-Runs : (id : Uuid) → Runs view Inv (repo.get_by_id id) (spec.get_by_id id)
  pub get_by_email-Runs : (e : String) → Runs view Inv (repo.get_by_email e) (spec.get_by_email e)
  pub get_by_username-Runs :
      (n : String) → Runs view Inv (repo.get_by_username n) (spec.get_by_username n)
  pub update-Runs : (u : User) → Runs view Inv (repo.update u) (spec.update u)
  pub update_status-Runs :
      (id : Uuid) (st : UserStatus) (t : Time)
      → Runs view Inv (repo.update_status id st t) (spec.update_status id st t)
  pub search-Runs :
      (q : String) (limit offset : ℕ)
      → Runs view Inv (repo.search q limit offset) (spec.search q limit offset)
  pub delete-Runs : (id : Uuid) → Runs view Inv (repo.delete id) (spec.delete id)
