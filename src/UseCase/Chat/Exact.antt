-- ===== src/UseCase/Chat/Exact.antt =====
-- The operations of the service over the bare tables decide by the rules of `Policy` and then make
-- one write.
use vibechat.Prelude.{◌≡◌, arith, Bool, false, List, Option, none, some, not, ◌==◌, if◌then◌else◌}
use vibechat.Exec.{Result, ok, err, Exec, lift, pure, ◌>>=◌, ◌>>◌, guard}
use vibechat.Domain.Errors.{
  forbidden, insufficient_rights, not_chat_member, already_chat_member, chat_not_found,
}
use vibechat.Domain.User.{Uuid, Time}
use vibechat.Domain.Chat.{
  Chat, is_direct, can_manage_members, is_owner, ChatMember, ChatType, direct, group, MemberRole,
  member,
}
use vibechat.Storage.Tables.{Db, ChatRow, UserRow}
use vibechat.Storage.Connection.{tables}
use vibechat.Storage.Postgres.Chat
use vibechat.Storage.Postgres.Chat.{chat_repository, found, found_chat}
use vibechat.Storage.Postgres.User.{user_repository, scan_one}
use vibechat.Storage.Postgres.Queries.{seek, chat_in, member_in, user_in, members_of, queries}
use vibechat.Storage.Sql.Chats.{scan_chat, has_member}
use vibechat.Storage.Sql.Users.{Collation}
use vibechat.UseCase.Chat.Dto.{
  UpdateGroupInput, AddMemberInput, ChangeMemberRoleInput, validate_update_group,
  validate_add_member, validate_change_role,
}
use vibechat.UseCase.Chat.Service.{
  remove_member, check_removal, add_member, change_member_role, new_member, role_of, update_group,
  edited_group, leave_chat, hand_over, next_owner,
}
use vibechat.UseCase.Chat.Policy.{
  kind, role, exists_user, kind_of, role_in, is_active, ◌▸◌, may_manage, may_remove, may_join,
  may_change_role, settle,
}

-- The guards of each operation over queries that are not looked into.
remove_flow :
    (row : Db → Option ChatRow) (caller target : Db → Option ChatMember)
    (write : Exec Db (Unit {0})) (d : Db)
    → (do
      c ← seek found_chat row
      guard (not (is_direct c)) forbidden
      m ← seek (found not_chat_member) caller
      guard (can_manage_members m.role) insufficient_rights
      t ← seek (found not_chat_member) target
      lift (check_removal m.role t.role)
      write)
        d
      ≡ settle
          (may_manage (kind (row d)) (role (caller d))
            ▸ may_remove (role (caller d)) (role (target d)))
          write
          d
unfolding settle ◌>>=◌ found_chat found guard is_direct can_manage_members check_removal scan_chat
remove_flow row caller target write d = ground arith

add_flow :
    (valid : Result (Unit {0})) (row : Db → Option ChatRow) (caller : Db → Option ChatMember)
    (user : Db → Option UserRow) (already : Db → Bool) (write : Exec Db (Unit {0})) (d : Db)
    → (do
      lift valid
      c ← seek found_chat row
      guard (not (is_direct c)) forbidden
      m ← seek (found not_chat_member) caller
      guard (can_manage_members m.role) insufficient_rights
      _ ← seek scan_one user
      b ← seek (λ b. ok b) already
      guard (not b) already_chat_member
      write)
        d
      ≡ settle
          (valid
            ▸ may_manage (kind (row d)) (role (caller d))
            ▸ may_join (exists_user (user d)) (already d))
          write
          d
unfolding settle ◌>>=◌ found_chat found scan_one guard is_direct can_manage_members scan_chat
add_flow valid row caller user already write d = ground arith

change_flow :
    (valid : Result (Unit {0})) (self : Bool) (caller target : Db → Option ChatMember)
    (write : Exec Db (Unit {0})) (d : Db)
    → (do
      lift valid
      guard (not self) forbidden
      m ← seek (found not_chat_member) caller
      guard (is_owner m.role) insufficient_rights
      _ ← seek (found not_chat_member) target
      write)
        d
      ≡ settle (valid ▸ may_change_role self (role (caller d)) (role (target d))) write d
unfolding settle ◌>>=◌ found guard is_owner
change_flow valid self caller target write d = ground arith

-- A write of what has been read.
abbrev pub with_chat : (Chat → Exec Db Chat) → Option ChatRow → Exec Db Chat
with_chat write none d = (err chat_not_found, d)
with_chat write (some r) d = write (scan_chat r) d

update_flow :
    (valid : Result (Unit {0})) (row : Db → Option ChatRow) (caller : Db → Option ChatMember)
    (write : Chat → Exec Db Chat) (d : Db)
    → (do
      lift valid
      c ← seek found_chat row
      guard (not (is_direct c)) forbidden
      m ← seek (found not_chat_member) caller
      guard (can_manage_members m.role) insufficient_rights
      write c)
        d
      ≡ settle (valid ▸ may_manage (kind (row d)) (role (caller d))) (with_chat write (row d)) d
unfolding settle ◌>>=◌ found_chat found guard is_direct can_manage_members scan_chat
update_flow valid row caller write d = ground arith

-- `UpdateGroup` writes the chat that it read, edited.
abbrev pub edit_chat : UpdateGroupInput → Time → Chat → Exec Db Chat
edit_chat i now c = do Chat.update tables (edited_group c i now); pure (edited_group c i now)

abbrev pub may_leave : Option ChatType → Option MemberRole → Result (Unit {0})
may_leave none caller = err chat_not_found
may_leave (some direct) caller = err forbidden
may_leave (some group) none = err not_chat_member
may_leave (some group) (some r) = ok tt

abbrev pub is_owner_role : Option MemberRole → Bool
is_owner_role none = false
is_owner_role (some r) = is_owner r

-- What leaving writes: an owner hands the chat over first.
abbrev pub leaving :
    Option MemberRole
    → (Db → List ChatMember)
    → (List ChatMember → Exec Db (Unit {0}))
    → Exec Db (Unit {0})
    → Exec Db (Unit {0})
leaving caller members give leave d = if is_owner_role caller then give (members d) d else leave d

leave_flow :
    (row : Db → Option ChatRow) (caller : Db → Option ChatMember) (members : Db → List ChatMember)
    (give : List ChatMember → Exec Db (Unit {0})) (leave : Exec Db (Unit {0})) (d : Db)
    → (do
      c ← seek found_chat row
      guard (not (is_direct c)) forbidden
      m ← seek (found not_chat_member) caller
      if is_owner m.role then (do ms ← seek (λ ms. ok ms) members; give ms) else leave)
        d
      ≡ settle
          (may_leave (kind (row d)) (role (caller d)))
          (leaving (role (caller d)) members give leave)
          d
unfolding settle ◌>>=◌ found_chat found guard is_direct scan_chat
leave_flow row caller members give leave d = ground arith

module _ (col : Collation) (c u : Uuid) where
  -- RemoveMember decides by the kind of the chat and the two roles, then deletes the row.
  pub remove_member_exact :
      (t : Uuid) (d : Db)
      → remove_member (chat_repository tables) (user_repository tables col) c u t d
        ≡ settle
            (may_manage (kind_of c d) (role_in c u d) ▸ may_remove (role_in c u d) (role_in c t d))
            (Chat.remove_member tables c t)
            d
  unfolding remove_member
  remove_member_exact t d =
      simp queries (remove_flow (chat_in c) (member_in c u) (member_in c t) _ d)

  -- AddMember
  pub add_member_exact :
      (i : AddMemberInput) (now : Time) (d : Db)
      → add_member (chat_repository tables) (user_repository tables col) c u i now d
        ≡ settle
            (validate_add_member i
              ▸ may_manage (kind_of c d) (role_in c u d)
              ▸ may_join (is_active i.user_id d) (has_member c i.user_id d))
            (Chat.add_member tables (new_member c i.user_id member now))
            d
  unfolding add_member
  add_member_exact i now d = simp queries (
      add_flow (validate_add_member i) (chat_in c) (member_in c u) (user_in i.user_id)
        (has_member c i.user_id) _ d)

  -- ChangeMemberRole
  pub change_member_role_exact :
      (i : ChangeMemberRoleInput) (d : Db)
      → change_member_role (chat_repository tables) (user_repository tables col) c u i d
        ≡ settle
            (validate_change_role i
              ▸ may_change_role (i.user_id == u) (role_in c u d) (role_in c i.user_id d))
            (Chat.update_member_role tables c i.user_id (role_of i.role))
            d
  unfolding change_member_role
  change_member_role_exact i d = simp queries (
      change_flow (validate_change_role i) (i.user_id == u) (member_in c u) (member_in c i.user_id)
        _ d)

  -- UpdateGroup
  pub update_group_exact :
      (i : UpdateGroupInput) (now : Time) (d : Db)
      → update_group (chat_repository tables) (user_repository tables col) c u i now d
        ≡ settle
            (validate_update_group i ▸ may_manage (kind_of c d) (role_in c u d))
            (with_chat (edit_chat i now) (chat_in c d))
            d
  unfolding update_group
  update_group_exact i now d =
      simp queries
        (update_flow (validate_update_group i) (chat_in c) (member_in c u) (edit_chat i now) d)

  -- LeaveChat
  pub leave_chat_exact :
      (d : Db)
      → leave_chat (chat_repository tables) (user_repository tables col) c u d
        ≡ settle
            (may_leave (kind_of c d) (role_in c u d))
            (leaving
              (role_in c u d)
              (members_of c)
              (λ ms.
                hand_over
                  (chat_repository tables)
                  (user_repository tables col)
                  c
                  u
                  (next_owner ms u))
              (Chat.remove_member tables c u))
            d
  unfolding leave_chat
  leave_chat_exact d =
      simp queries
        (leave_flow (chat_in c) (member_in c u) (members_of c) _ (Chat.remove_member tables c u) d)
