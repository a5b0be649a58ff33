-- ===== src/Domain/MessageRefines.antt =====
-- What a repository of messages promises, against a specification.
use vibechat.Prelude.{ℕ, String, Option}
use vibechat.Exec.Runs.{Runs, Reads}
use vibechat.Domain.User.{Uuid}
use vibechat.Domain.Message.{Message, MessageCursor, MessageRepository, Reaction}

pub record MessageReads {D : Type 0} (spec : MessageRepository D) : Type 0 where
  pub get_by_id-Reads : (id : Uuid) → Reads (spec.get_by_id id)
  pub get_chat_messages-Reads :
      (c : Uuid) (cur : Option MessageCursor) (limit : ℕ)
      → Reads (spec.get_chat_messages c cur limit)

pub record MessageRefines {S D : Type 0} (repo : MessageRepository S) (spec : MessageRepository D)
    (view : S → D) (Inv : S → Type 0) : Type 0 where
  pub create-Runs : (m : Message) → Runs view Inv (repo.create m) (spec.create m)
  pub get_by_id-Runs : (id : Uuid) → Runs view Inv (repo.get_by_id id) (spec.get_by_id id)
  pub get_chat_messages-Runs :
      (c : Uuid) (cur : Option MessageCursor) (limit : ℕ)
      → Runs view Inv (repo.get_chat_messages c cur limit) (spec.get_chat_messages c cur limit)
  pub update-Runs : (m : Message) → Runs view Inv (repo.update m) (spec.update m)
  pub delete-Runs : (id : Uuid) → Runs view Inv (repo.delete id) (spec.delete id)
  pub mark_read-Runs : (c u : Uuid) → Runs view Inv (repo.mark_read c u) (spec.mark_read c u)
  pub add_reaction-Runs : (x : Reaction) → Runs view Inv (repo.add_reaction x) (spec.add_reaction x)
  pub remove_reaction-Runs :
      (id u : Uuid) (e : String)
      → Runs view Inv (repo.remove_reaction id u e) (spec.remove_reaction id u e)
