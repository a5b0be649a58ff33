-- ===== src/Storage/Mysql/Refines.antt =====
-- The repositories of MySQL over any lawful handle run as the same repositories over the bare
-- tables: the only difference is an error of the driver, and it changes nothing.
use vibechat.Prelude.{List, [], ◌∷◌, ◌≡◌, refl, arith, String}
use vibechat.Exec.{Exec}
use vibechat.Domain.User.{Uuid}
use vibechat.Exec.Runs.{Reads, Runs-bind-lift}
use vibechat.Exec.Reads.{Reads-bind-lift}
use vibechat.Exec.Tx.{RunsTx, RunsTx-of-Runs, RunsTx-bind, RunsTx-pure}
use vibechat.Domain.Chat.{ChatMember}
use vibechat.Domain.Refines.{ChatReads, ChatRefines, UserReads, UserRefines}
use vibechat.Storage.Tables.{Db}
use vibechat.Storage.Connection.{Connection, tables}
use vibechat.Storage.Connection.Laws.{IsConnection}
use vibechat.Storage.Mysql.Chat
use vibechat.Storage.Mysql.Chat.{chat_repository, insert_members}
use vibechat.Storage.Mysql.User
use vibechat.Storage.Mysql.User.{user_repository}
use vibechat.Storage.Mysql.Chats.{
  insert_chat, insert_member, select_chat, select_member, select_direct_chat, select_members,
  exists_member,
}
use vibechat.Storage.Mysql.Previews.{select_user_chats}
use vibechat.Storage.Mysql.Users.{
  Collation, select_user, select_by_email, select_by_username, search_users,
}

-- What the queries leave behind is what they found.
read : {A : Type 0} (m : Exec Db A) → ((d : Db) → (m d).1 ≡ d) → Reads m
read m e = record { same = e }

select_member-same : (c u : Uuid) (d : Db) → (select_member c u d).1 ≡ d
unfolding select_member
select_member-same c u d = ground arith

pub chat_repository-ChatReads : ChatReads (chat_repository tables)
unfolding Chat.get_by_id Chat.get_member Chat.get_members Chat.get_user_chats Chat.get_direct_chat
    Chat.is_member select_chat select_members select_user_chats select_direct_chat exists_member
chat_repository-ChatReads = record {
  get_by_id-Reads = λ id. Reads-bind-lift _ _ (read _ (λ d. refl));
  get_member-Reads = λ c u. Reads-bind-lift _ _ (read _ (select_member-same c u));
  get_members-Reads = λ c. read _ (λ d. refl);
  get_user_chats-Reads = λ u. read _ (λ d. refl);
  get_direct_chat-Reads = λ u v. Reads-bind-lift _ _ (read _ (λ d. refl));
  is_member-Reads = λ c u. read _ (λ d. refl);
}

pub user_repository-UserReads :
    (c : Collation) (show : Uuid → String) → UserReads (user_repository tables c show)
unfolding User.get_by_id User.get_by_email User.get_by_username User.search select_user
    select_by_email select_by_username search_users
user_repository-UserReads c show = record {
  get_by_id-Reads = λ id. Reads-bind-lift _ _ (read _ (λ d. refl));
  get_by_email-Reads = λ e. Reads-bind-lift _ _ (read _ (λ d. refl));
  get_by_username-Reads = λ n. Reads-bind-lift _ _ (read _ (λ d. refl));
  search-Reads = λ q limit offset. read _ (λ d. refl);
}

module _ {S : Type 0} (conn : Connection S) (view : S → Db) (Inv : S → Type 0)
    (law : IsConnection conn view Inv) where
  insert_members-RunsTx :
      (ms : List ChatMember) → RunsTx view Inv (insert_members conn ms) (insert_members tables ms)
  unfolding insert_members
  insert_members-RunsTx [] = RunsTx-pure tt
  insert_members-RunsTx (m ∷ ms) =
      RunsTx-bind _ _ _ _ (RunsTx-of-Runs _ _ (law.exec-Runs (insert_member m)))
        λ _. insert_members-RunsTx ms

  pub chat_repository-ChatRefines :
      ChatRefines (chat_repository conn) (chat_repository tables) view Inv
  unfolding Chat.create_with_members Chat.get_by_id Chat.update Chat.delete Chat.add_member
      Chat.remove_member Chat.get_member Chat.get_members Chat.update_member_role
      Chat.get_user_chats Chat.get_direct_chat Chat.is_member
  chat_repository-ChatRefines = record {
    create_with_members-Runs = λ c ms. law.transaction-Runs _ _ (
        RunsTx-bind _ _ _ _ (RunsTx-of-Runs _ _ (law.exec-Runs (insert_chat c)))
          λ _. insert_members-RunsTx ms);
    get_by_id-Runs = λ id. Runs-bind-lift _ _ _ (law.exec-Runs _);
    update-Runs = λ c. Runs-bind-lift _ _ _ (law.exec-Runs _);
    delete-Runs = λ id. Runs-bind-lift _ _ _ (law.exec-Runs _);
    add_member-Runs = λ m. Runs-bind-lift _ _ _ (law.exec-Runs _);
    remove_member-Runs = λ c u. Runs-bind-lift _ _ _ (law.exec-Runs _);
    get_member-Runs = λ c u. Runs-bind-lift _ _ _ (law.exec-Runs _);
    get_members-Runs = λ c. law.exec-Runs _;
    update_member_role-Runs = λ c u r. Runs-bind-lift _ _ _ (law.exec-Runs _);
    get_user_chats-Runs = λ u. law.exec-Runs _;
    get_direct_chat-Runs = λ u v. Runs-bind-lift _ _ _ (law.exec-Runs _);
    is_member-Runs = λ c u. law.exec-Runs _;
  }

  pub user_repository-UserRefines :
      (c : Collation) (show : Uuid → String)
      → UserRefines (user_repository conn c show) (user_repository tables c show) view Inv
  unfolding User.create User.get_by_id User.get_by_email User.get_by_username User.update
      User.update_status User.search User.delete
  user_repository-UserRefines c show = record {
    create-Runs = λ u. Runs-bind-lift _ _ _ (law.exec-Runs _);
    get_by_id-Runs = λ id. Runs-bind-lift _ _ _ (law.exec-Runs _);
    get_by_email-Runs = λ e. Runs-bind-lift _ _ _ (law.exec-Runs _);
    get_by_username-Runs = λ n. Runs-bind-lift _ _ _ (law.exec-Runs _);
    update-Runs = λ u. Runs-bind-lift _ _ _ (law.exec-Runs _);
    update_status-Runs = λ id st t. law.exec-Runs _;
    search-Runs = λ q limit offset. law.exec-Runs _;
    delete-Runs = λ id. law.exec-Runs _;
  }
