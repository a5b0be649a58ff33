-- ===== src/Storage/Postgres/MessageRefines.antt =====
-- internal/infrastructure/storage/postgres/message.go: the repository of messages over any handle
-- that keeps its promise runs as over the bare tables.
use vibechat.Prelude.{refl}
use vibechat.Exec.Reads.{Reads-bind-lift}
use vibechat.Domain.MessageRefines.{MessageReads, MessageRefines}
use vibechat.Exec.Runs.{Runs-bind-lift}
use vibechat.Storage.Tables.{Db}
use vibechat.Storage.Connection.{Connection, tables}
use vibechat.Storage.Connection.Laws.{IsConnection}
use vibechat.Storage.Postgres.Message
use vibechat.Storage.Postgres.Message.{message_repository}
use vibechat.Storage.Sql.Messages.{select_message, select_messages}
use vibechat.Storage.Sql.Users.{Collation}

pub message_repository-MessageReads :
    (col : Collation) → MessageReads (message_repository tables col)
unfolding Message.get_by_id Message.get_chat_messages select_message select_messages
message_repository-MessageReads col = record {
  get_by_id-Reads = λ id. Reads-bind-lift _ _ (record { same = λ d. refl });
  get_chat_messages-Reads = λ c cur limit. record { same = λ d. refl };
}

module _ {S : Type 0} (conn : Connection S) (view : S → Db) (Inv : S → Type 0)
    (law : IsConnection conn view Inv) where
  pub message_repository-MessageRefines :
      (col : Collation)
      → MessageRefines (message_repository conn col) (message_repository tables col) view Inv
  unfolding Message.create Message.get_by_id Message.get_chat_messages Message.update Message.delete
      Message.mark_read Message.add_reaction Message.remove_reaction
  message_repository-MessageRefines col = record {
    create-Runs = λ m. law.exec-Runs _;
    get_by_id-Runs = λ id. Runs-bind-lift _ _ _ (law.exec-Runs _);
    get_chat_messages-Runs = λ c cur limit. law.exec-Runs _;
    update-Runs = λ m. Runs-bind-lift _ _ _ (law.exec-Runs _);
    delete-Runs = λ id. Runs-bind-lift _ _ _ (law.exec-Runs _);
    mark_read-Runs = λ c u. law.exec-Runs _;
    add_reaction-Runs = λ x. law.exec-Runs _;
    remove_reaction-Runs = λ id u e. law.exec-Runs _;
  }
