-- ===== src/Tests/Chats.antt =====
-- The theorems about the service of chats, on the group of `Data`.
use vibechat.Prelude.{
  ◌≡◌, ◌≢◌, refl, List, [], ◌∷◌, none, some, find_first, arith, false, ◌==◌, if◌then◌else◌,
}
use vibechat.Exec.{ok, err}
use vibechat.Exec.Runs.{Outcome}
use vibechat.Domain.Errors.{driver, chat_not_found}
use vibechat.Domain.Chat.{Chat, ChatMember, group, owner, admin, member}
use vibechat.Storage.Connection.{World, tables, remote}
use vibechat.Storage.Connection.Laws.{shown}
use vibechat.Storage.Postgres.Chat
use vibechat.Storage.Postgres.RoundTrip
use vibechat.Storage.Postgres.Chat.{chat_repository}
use vibechat.Storage.Postgres.User.{user_repository}
use vibechat.Storage.Postgres.Queries.{chat_in, members_of}
use vibechat.Storage.Sql.Chats.{has_member, is_row_of}
use vibechat.Storage.Ownership.{IsOwned}
use vibechat.Storage.Ownership.Rows.{owners}
use vibechat.UseCase.Chat.Dto.{
  UpdateGroupInput, AddMemberInput, ChangeMemberRoleInput, validate_update_group,
  validate_add_member, validate_change_role,
}
use vibechat.UseCase.Chat.Service
use vibechat.UseCase.Chat.Service.{new_member, role_of, hand_over, next_owner}
use vibechat.UseCase.Chat.Policy.{
  kind_of, role_in, is_active, ◌▸◌, may_manage, may_remove, may_join, may_change_role, settle,
}
use vibechat.UseCase.Chat.Exact.{with_chat, edit_chat}
use vibechat.UseCase.Chat.Faults
use vibechat.UseCase.Chat.Histories
use vibechat.UseCase.Chat.Histories.{Request, perform_all, open_group, join, expel, promote}
use vibechat.UseCase.Chat.NextOwner
use vibechat.UseCase.Chat.NextOwner.{first_of, is_other, is_other_admin}
use vibechat.UseCase.Chat.Handover
use vibechat.UseCase.Chat.Owned
use vibechat.UseCase.Chat.Deleted
use vibechat.UseCase.Chat.Deleted.{for_member}
use vibechat.Tests.Data.{col, db, world, row, db-IsOwned}

-- Ann adds Dan, makes Dan an admin, and Bob removes Cid; then Dan opens a group with Ann.
abbrev requests : List Request
requests =
    join 10 1 (record { user_id = 4 }) 9
    ∷ promote 10 1 (record { user_id = 4; role = "admin" })
    ∷ expel 10 2 3
    ∷ open_group 4 (record { name = "Other"; description = ""; member_ids = 1 ∷ 4 ∷ 1 ∷ [] }) 9 11
    ∷ []

perform_all-IsOwned_example : IsOwned (perform_all col requests world).db
perform_all-IsOwned_example = Histories.perform_all-IsOwned col requests world db-IsOwned

remove_member_at_example :
    Outcome shown world (Service.remove_member (Faults.chats col) (Faults.users col) 10 2 3 world) (
      settle
        (may_manage (kind_of 10 db) (role_in 10 2 db)
          ▸ may_remove (role_in 10 2 db) (role_in 10 3 db))
        (Chat.remove_member tables 10 3)
        db)
remove_member_at_example = Faults.remove_member_at col 10 2 3 world

abbrev dan : AddMemberInput
dan = record { user_id = 4 }

add_member_at_example :
    Outcome shown world
      (Service.add_member (Faults.chats col) (Faults.users col) 10 1 dan 9 world)
      (settle
        (validate_add_member dan
          ▸ may_manage (kind_of 10 db) (role_in 10 1 db)
          ▸ may_join (is_active 4 db) (has_member 10 4 db))
        (Chat.add_member tables (new_member 10 4 member 9))
        db)
add_member_at_example = Faults.add_member_at col 10 1 dan 9 world

abbrev bob : ChangeMemberRoleInput
bob = record { user_id = 2; role = "member" }

change_member_role_at_example :
    Outcome shown world
      (Service.change_member_role (Faults.chats col) (Faults.users col) 10 1 bob world)
      (settle
        (validate_change_role bob ▸ may_change_role false (role_in 10 1 db) (role_in 10 2 db))
        (Chat.update_member_role tables 10 2 (role_of "member"))
        db)
change_member_role_at_example = Faults.change_member_role_at col 10 1 bob world

abbrev renamed : UpdateGroupInput
renamed = record { name = some "Crew"; description = none; avatar_url = none }

update_group_at_example :
    Outcome shown world
      (Service.update_group (Faults.chats col) (Faults.users col) 10 2 renamed 9 world)
      (settle
        (validate_update_group renamed ▸ may_manage (kind_of 10 db) (role_in 10 2 db))
        (with_chat (edit_chat renamed 9) (chat_in 10 db))
        db)
update_group_at_example = Faults.update_group_at col 10 2 renamed 9 world

leave_chat-IsOwned_example :
    IsOwned (Service.leave_chat (chat_repository tables) (user_repository tables col) 10 1 db).1
leave_chat-IsOwned_example = Owned.leave_chat-IsOwned col 10 1 db db-IsOwned

next_owner_lem_example :
    next_owner (members_of 10 db) 1
    ≡ first_of
        (find_first (is_other_admin 1) (members_of 10 db))
        (find_first (is_other 1) (members_of 10 db))
next_owner_lem_example = NextOwner.next_owner_lem (members_of 10 db) 1

-- The first statement succeeds and the second one fails.
abbrev cut : World
cut = record world { faults = λ n. if n == 1 then some 7 else none }

abbrev bob_member : ChatMember
bob_member = new_member 10 2 admin 6

one-ne-two : 1 ≢ bob_member.user_id
one-ne-two = omega arith

ann-row : find_first (is_row_of 10 1) db.members ≡ some (row 1 owner 5)
unfolding is_row_of
ann-row = refl

bob-row : find_first (is_row_of 10 2) db.members ≡ some (row 2 admin 6)
unfolding is_row_of
bob-row = refl

hand_over-two_owners_example :
    let out =
      hand_over (chat_repository remote) (user_repository remote col) 10 1 (some bob_member) cut in
    (out.0 ≡ err (driver 7)) × (owners 10 out.1.db.members ≡ 2)
hand_over-two_owners_example =
    Handover.hand_over-two_owners col 10 1 bob_member cut db-IsOwned one-ne-two ann-row refl bob-row
      refl refl

get_members_of_deleted_example :
    let d = (Chat.delete tables 10 db).1 in
    ((Service.get_chat (chat_repository tables) (user_repository tables col) 10 1 d).0
      ≡ for_member (has_member 10 1 db) (err chat_not_found))
    × ((Service.get_members (chat_repository tables) (user_repository tables col) 10 1 d).0
        ≡ for_member (has_member 10 1 db) (ok (members_of 10 db)))
get_members_of_deleted_example = Deleted.get_members_of_deleted col 10 1 db

-- Dan opens a group without a description.
abbrev den : Chat
den = record {
  id = 11;
  type = group;
  name = "Den";
  avatar_url = "";
  description = "";
  created_by = 4;
  created_at = 9;
  updated_at = 9;
}

abbrev founders : List ChatMember
founders = new_member 11 4 owner 9 ∷ new_member 11 1 member 9 ∷ []
