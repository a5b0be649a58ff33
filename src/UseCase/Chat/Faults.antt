-- ===== src/UseCase/Chat/Faults.antt =====
-- internal/usecase/chat/chat.go over the handle behind a network: whatever statements fail, a
-- request is decided by the rules of `Policy` and happens as a whole or not at all.
use vibechat.Prelude.{◌==◌}
use vibechat.Exec.Runs.{Outcome}
use vibechat.Domain.User.{Uuid, Time, UserRepository}
use vibechat.Domain.Chat.{ChatRepository, member}
use vibechat.Domain.Refines.{ChatRefines, UserRefines}
use vibechat.Storage.Connection.{tables, remote, World}
use vibechat.Storage.Connection.Laws.{Any, shown, remote-IsConnection}
use vibechat.Storage.Postgres.Chat
use vibechat.Storage.Postgres.Chat.{chat_repository}
use vibechat.Storage.Postgres.User.{user_repository}
use vibechat.Storage.Postgres.Queries.{chat_in}
use vibechat.Storage.Postgres.Refines.{
  chat_repository-ChatReads, user_repository-UserReads, chat_repository-ChatRefines,
  user_repository-UserRefines,
}
use vibechat.Storage.Sql.Chats.{has_member}
use vibechat.Storage.Sql.Users.{Collation}
use vibechat.UseCase.Chat.Dto.{
  CreateDirectInput, CreateGroupInput, UpdateGroupInput, AddMemberInput, ChangeMemberRoleInput,
  validate_update_group, validate_add_member, validate_change_role,
}
use vibechat.UseCase.Chat.Service
use vibechat.UseCase.Chat.Service.{new_member, role_of}
use vibechat.UseCase.Chat.Policy.{
  kind_of, role_in, is_active, ◌▸◌, may_manage, may_remove, may_join, may_change_role, settle,
}
use vibechat.UseCase.Chat.Exact.{
  remove_member_exact, add_member_exact, change_member_role_exact, update_group_exact, with_chat,
  edit_chat,
}
use vibechat.UseCase.Chat.Refines

module _ (col : Collation) where
  abbrev pub chats : ChatRepository World
  chats = chat_repository remote

  abbrev pub users : UserRepository World
  users = user_repository remote col

  cr : ChatRefines chats (chat_repository tables) shown Any
  cr = chat_repository-ChatRefines remote shown Any remote-IsConnection

  ur : UserRefines users (user_repository tables col) shown Any
  ur = user_repository-UserRefines remote shown Any remote-IsConnection col

  -- RemoveMember over any pattern of failing statements: it ends with an error of the driver and
  -- the tables are as before, or it ends as the rules decide. They ask for a group, a caller who is
  -- owner or admin, and a target who is a member, or an admin if the caller is the owner, and then
  -- the row of the target is deleted.
  pub remove_member_at :
      (c u t : Uuid) (w : World)
      → Outcome shown w (Service.remove_member chats users c u t w) (
          settle
            (may_manage (kind_of c w.db) (role_in c u w.db)
              ▸ may_remove (role_in c u w.db) (role_in c t w.db))
            (Chat.remove_member tables c t)
            w.db)
  remove_member_at c u t w =
      rw (← remove_member_exact col c u t w.db)
        ((Refines.remove_member-Runs _ _ _ _ _ _ cr chat_repository-ChatReads ur
            (user_repository-UserReads col) c u t).at
          w tt).1

  -- AddMember over any pattern of failing statements: it ends with an error of the driver and the
  -- tables are as before, or it ends as the rules decide. They ask for a valid input, a group, a
  -- caller who is owner or admin, and an active user who has no row in the chat, and then the row
  -- of a plain member is added.
  pub add_member_at :
      (c u : Uuid) (i : AddMemberInput) (now : Time) (w : World)
      → Outcome shown w (Service.add_member chats users c u i now w) (
          settle
            (validate_add_member i
              ▸ may_manage (kind_of c w.db) (role_in c u w.db)
              ▸ may_join (is_active i.user_id w.db) (has_member c i.user_id w.db))
            (Chat.add_member tables (new_member c i.user_id member now))
            w.db)
  add_member_at c u i now w =
      rw (← add_member_exact col c u i now w.db)
        ((Refines.add_member-Runs _ _ _ _ _ _ cr chat_repository-ChatReads ur
            (user_repository-UserReads col) c u i now).at
          w tt).1

  -- ChangeMemberRole over any pattern of failing statements: it ends with an error of the driver
  -- and the tables are as before, or it ends as the rules decide. They ask for a valid input, a
  -- target other than the caller, a caller who is the owner, and a target in the chat, and then the
  -- target has the new role. The kind of the chat is not asked for.
  pub change_member_role_at :
      (c u : Uuid) (i : ChangeMemberRoleInput) (w : World)
      → Outcome shown w (Service.change_member_role chats users c u i w) (
          settle
            (validate_change_role i
              ▸ may_change_role (i.user_id == u) (role_in c u w.db) (role_in c i.user_id w.db))
            (Chat.update_member_role tables c i.user_id (role_of i.role))
            w.db)
  change_member_role_at c u i w =
      rw (← change_member_role_exact col c u i w.db)
        ((Refines.change_member_role-Runs _ _ _ _ _ _ cr chat_repository-ChatReads ur
            (user_repository-UserReads col) c u i).at
          w tt).1

  -- UpdateGroup over any pattern of failing statements: it ends with an error of the driver and
  -- the tables are as before, or it ends as the rules decide. They ask for a valid input, a group
  -- and a caller who is owner or admin, and then the chat that was read is edited and written.
  pub update_group_at :
      (c u : Uuid) (i : UpdateGroupInput) (now : Time) (w : World)
      → Outcome shown w (Service.update_group chats users c u i now w) (
          settle
            (validate_update_group i ▸ may_manage (kind_of c w.db) (role_in c u w.db))
            (with_chat (edit_chat i now) (chat_in c w.db))
            w.db)
  update_group_at c u i now w =
      rw (← update_group_exact col c u i now w.db)
        ((Refines.update_group-Runs _ _ _ _ _ _ cr chat_repository-ChatReads ur
            (user_repository-UserReads col) c u i now).at
          w tt).1

  -- CreateDirect and CreateGroup over any pattern of failing statements end with an error of the
  -- driver and the tables as before, or end as over the bare tables.
  pub create_direct_at :
      (u : Uuid) (i : CreateDirectInput) (now : Time) (id : Uuid) (w : World)
      → Outcome shown w (Service.create_direct chats users u i now id w) (
          Service.create_direct
            (chat_repository tables)
            (user_repository tables col)
            u
            i
            now
            id
            w.db)
  create_direct_at u i now id w =
      ((Refines.create_direct-Runs _ _ _ _ _ _ cr chat_repository-ChatReads ur
          (user_repository-UserReads col) u i now id).at
        w tt).1

  pub create_group_at :
      (u : Uuid) (i : CreateGroupInput) (now : Time) (id : Uuid) (w : World)
      → Outcome shown w (Service.create_group chats users u i now id w) (
          Service.create_group
            (chat_repository tables)
            (user_repository tables col)
            u
            i
            now
            id
            w.db)
  create_group_at u i now id w =
      ((Refines.create_group-Runs _ _ _ _ _ _ cr chat_repository-ChatReads ur
          (user_repository-UserReads col) u i now id).at
        w tt).1
