-- ===== src/UseCase/Chat/Owned.antt =====
-- internal/usecase/chat/chat.go, `LeaveChat` over the bare tables and the invariant of the roles.
use vibechat.Prelude.{◌≡◌, refl, Option, none, some, find_first}
use vibechat.Exec.{ok, Exec, ◌>>=◌}
use vibechat.Domain.User.{Uuid}
use vibechat.Domain.Chat.{
  ChatType, direct, group, ChatMember, MemberRole, owner, admin, member, is_owner,
}
use vibechat.Storage.Tables.{Db}
use vibechat.Storage.Connection.{tables}
use vibechat.Storage.Postgres.Chat
use vibechat.Storage.Postgres.Chat.{chat_repository}
use vibechat.Storage.Postgres.User.{user_repository}
use vibechat.Storage.Postgres.Queries.{members_of}
use vibechat.Storage.Postgres.Effects.{update_member_role_found}
use vibechat.Storage.Sql.Chats.{is_row_of}
use vibechat.Storage.Sql.Users.{Collation}
use vibechat.Storage.Ownership.{IsOwned}
use vibechat.Storage.Ownership.Writes
use vibechat.Storage.Ownership.Chats
use vibechat.Storage.Ownership.Keys.{other_is_no_owner}
use vibechat.UseCase.Chat.Service
use vibechat.UseCase.Chat.Service.{
  hand_over, next_owner, new_direct, direct_members, new_group, group_members,
}
use vibechat.UseCase.Chat.Policy.{role_in}
use vibechat.UseCase.Chat.Exact.{leave_chat_exact, leaving, may_leave}
use vibechat.UseCase.Chat.Ownership.{role-row, settle_keeps, one_owner}
use vibechat.UseCase.Chat.Leaving.{next_owner-row}

module _ (col : Collation) (c u : Uuid) (d : Db) (o : IsOwned d) where
  abbrev give : Option ChatMember → Exec Db (Unit {0})
  give = hand_over (chat_repository tables) (user_repository tables col) c u

  -- The first write of a handover that succeeds is followed by the second.
  hand_over-some :
      (m : ChatMember) {r : _}
      → find_first (is_row_of c m.user_id) d.members ≡ some r
      → (give (some m) d).1
        ≡ (Chat.remove_member tables c u (Chat.update_member_role tables c m.user_id owner d).1).1
  unfolding hand_over ◌>>=◌
  hand_over-some m found = rw (update_member_role_found c m.user_id d found owner) refl

  -- The owner's turn, whoever is found.
  give-IsOwned :
      (next : Option ChatMember)
      → role_in c u d ≡ some owner
      → next_owner (members_of c d) u ≡ next
      → IsOwned (give next d).1
  unfolding is_owner hand_over
  give-IsOwned none caller e = Chats.delete-IsOwned c d o
  give-IsOwned (some m) caller e =
      let (row, there, own) = role-row c u d caller in
      let (ne, (r, found)) = next_owner-row c u d e in
      let first = one_owner col c u d o there own in
      let plain =
        other_is_no_owner c u m.user_id d.members o.members_distinct first ne there found
          (rw own refl) in
      rw (hand_over-some m found)
        (Writes.hand_over-IsOwned c u m.user_id d o ne there found (rw own refl) plain)

  may_leave-role :
      (k : Option ChatType) (x : Option MemberRole)
      → may_leave k x ≡ ok tt
      → (r : MemberRole) × (x ≡ some r)
  may_leave-role none x h = absurd (cc)
  may_leave-role (some direct) x h = absurd (cc)
  may_leave-role (some group) none h = absurd (cc)
  may_leave-role (some group) (some r) h = (r, refl)

  leaving-IsOwned :
      (x : MemberRole)
      → role_in c u d ≡ some x
      → IsOwned
          (leaving
            (role_in c u d)
            (members_of c)
            (λ ms. give (next_owner ms u))
            (Chat.remove_member tables c u)
            d).1
  unfolding is_owner
  leaving-IsOwned owner e = rw e (give-IsOwned _ e refl)
  leaving-IsOwned admin e =
      let (row, there, own) = role-row c u d e in
      rw e (Writes.remove_member-IsOwned c u d o there (rw own refl))
  leaving-IsOwned member e =
      let (row, there, own) = role-row c u d e in
      rw e (Writes.remove_member-IsOwned c u d o there (rw own refl))

  -- LeaveChat over the bare tables, where no statement fails by itself, leaves exactly one owner in
  -- every group and none in a direct chat, if it was so before: a plain member or an admin just
  -- leaves, an owner hands the chat over first, and the last one deletes it.
  pub leave_chat-IsOwned :
      IsOwned (Service.leave_chat (chat_repository tables) (user_repository tables col) c u d).1
  leave_chat-IsOwned = rw leave_chat_exact (
      settle_keeps IsOwned _ _ d o
        λ e. let (x, caller) = may_leave-role _ _ e in leaving-IsOwned x caller)
