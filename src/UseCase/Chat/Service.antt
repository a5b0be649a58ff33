-- ===== src/UseCase/Chat/Service.antt =====
-- internal/usecase/chat/chat.go: the service over any two repositories that share a state. The
-- last arguments of an operation that needs them are what time.Now() and uuid.New() return.
use vibechat.Prelude.{
  String, Bool, true, false, not, ◌&&◌, List, [], ◌∷◌, Option, none, some, ◌==◌, str_eq,
  if◌then◌else◌, any,
}
use vibechat.Exec.{Result, ok, err, Exec, pure, raise, lift, try, guard, ◌>>=◌, ◌>>◌}
use vibechat.Domain.Errors.{
  forbidden, chat_not_found, insufficient_rights, already_chat_member, cannot_remove_owner,
  not_chat_member,
}
use vibechat.Domain.User.{Uuid, Time, UserRepository}
use vibechat.Domain.Chat.{
  Chat, ChatMember, ChatPreview, ChatRepository, MemberRole, owner, admin, member, direct, group,
  is_direct, is_owner, is_admin, can_manage_members,
}
use vibechat.UseCase.Chat.Dto.{
  CreateDirectInput, CreateGroupInput, UpdateGroupInput, AddMemberInput, ChangeMemberRoleInput,
  validate_create_direct, validate_create_group, validate_update_group, validate_add_member,
  validate_change_role,
}

abbrev pub new_member : Uuid → Uuid → MemberRole → Time → ChatMember
new_member chat_id user_id role now = record {
  chat_id = chat_id;
  user_id = user_id;
  role = role;
  joined_at = now;
  user = none;
}

unfoldable pub new_direct : Uuid → Uuid → Time → Chat
new_direct id caller_id now = record {
  id = id;
  type = direct;
  name = "";
  avatar_url = "";
  description = "";
  created_by = caller_id;
  created_at = now;
  updated_at = now;
}

unfoldable pub direct_members : Uuid → Uuid → Uuid → Time → List ChatMember
direct_members id caller_id target_id now =
    new_member id caller_id member now ∷ new_member id target_id member now ∷ []

unfoldable pub new_group : Uuid → Uuid → CreateGroupInput → Time → Chat
new_group id caller_id i now = record {
  id = id;
  type = group;
  name = i.name;
  avatar_url = "";
  description = i.description;
  created_by = caller_id;
  created_at = now;
  updated_at = now;
}

-- The loop that appends each member once; `seen` is the set of those that are there.
unfoldable pub add_unseen : Uuid → Time → List Uuid → List Uuid → List ChatMember
add_unseen id now seen [] = []
add_unseen id now seen (uid ∷ rest) = elim (any (λ x. x == uid) seen) [
  | true ↦ add_unseen id now seen rest
  | false ↦ new_member id uid member now ∷ add_unseen id now (uid ∷ seen) rest
]

unfoldable pub group_members : Uuid → Uuid → CreateGroupInput → Time → List ChatMember
unfolding add_unseen
group_members id caller_id i now =
    new_member id caller_id owner now ∷ add_unseen id now (caller_id ∷ []) i.member_ids

-- The loop of `nextOwner`, with its `fallback`.
unfoldable pub next_owner_from : Option ChatMember → List ChatMember → Uuid → Option ChatMember
next_owner_from fallback [] exclude_id = fallback
next_owner_from fallback (m ∷ ms) exclude_id =
    let rest = next_owner_from fallback ms exclude_id in
    let rest' = next_owner_from (elim fallback [ none ↦ some m | some f ↦ some f ]) ms exclude_id in
    if m.user_id == exclude_id then rest else if is_admin m.role then some m else rest'

unfoldable pub next_owner : List ChatMember → Uuid → Option ChatMember
unfolding next_owner_from
next_owner = next_owner_from none

or_else : Option String → String → String
or_else none old = old
or_else (some s) old = s

unfoldable pub edited_group : Chat → UpdateGroupInput → Time → Chat
unfolding or_else
edited_group c i now = record c {
  name = or_else i.name c.name;
  description = or_else i.description c.description;
  avatar_url = or_else i.avatar_url c.avatar_url;
  updated_at = now;
}

-- `domain.MemberRole(in.Role)`, for a text that has passed the validation.
unfoldable pub role_of : String → MemberRole
role_of s = if str_eq s "admin" then admin else member

-- Whether a caller of one role may remove a member of another.
unfoldable pub check_removal : MemberRole → MemberRole → Result (Unit {0})
unfolding is_owner is_admin
check_removal caller target =
    if is_owner target
    then err cannot_remove_owner
    else if is_admin target && not (is_owner caller)
    then err insufficient_rights
    else ok tt

module _ {S : Type 0} (chats : ChatRepository S) (users : UserRepository S) where
  unfoldable pub assert_member : Uuid → Uuid → Exec S (Unit {0})
  assert_member chat_id user_id = do
    found ← chats.is_member chat_id user_id
    guard found not_chat_member

  -- The chat is opened if the search for one ended with `ErrChatNotFound`.
  unfoldable pub open_direct : Chat → List ChatMember → Result Chat → Exec S (Chat × Bool)
  open_direct c members (ok existing) = pure (existing, false)
  open_direct c members (err chat_not_found) = do
    chats.create_with_members c members
    pure (c, true)
  open_direct c members (err e) = raise e

  unfoldable pub create_direct : Uuid → CreateDirectInput → Time → Uuid → Exec S (Chat × Bool)
  unfolding open_direct new_direct direct_members
  create_direct caller_id i now id = do
    lift (validate_create_direct i)
    guard (not (i.target_user_id == caller_id)) forbidden
    _ ← users.get_by_id i.target_user_id
    existing ← try (chats.get_direct_chat caller_id i.target_user_id)
    open_direct (new_direct id caller_id now) (direct_members id caller_id i.target_user_id now)
        existing

  unfoldable pub check_users : Uuid → List Uuid → Exec S (Unit {0})
  check_users caller_id [] = pure tt
  check_users caller_id (uid ∷ rest) =
      let next = check_users caller_id rest in
      if uid == caller_id then next else (users.get_by_id uid >>= λ _. next)

  unfoldable pub create_group : Uuid → CreateGroupInput → Time → Uuid → Exec S Chat
  unfolding check_users new_group group_members
  create_group caller_id i now id = do
    lift (validate_create_group i)
    check_users caller_id i.member_ids
    chats.create_with_members (new_group id caller_id i now) (group_members id caller_id i now)
    pure (new_group id caller_id i now)

  unfoldable pub get_chat : Uuid → Uuid → Exec S Chat
  unfolding assert_member
  get_chat chat_id caller_id = do assert_member chat_id caller_id; chats.get_by_id chat_id

  unfoldable pub get_user_chats : Uuid → Exec S (List ChatPreview)
  get_user_chats caller_id = chats.get_user_chats caller_id

  unfoldable pub get_members : Uuid → Uuid → Exec S (List ChatMember)
  unfolding assert_member
  get_members chat_id caller_id = do assert_member chat_id caller_id; chats.get_members chat_id

  unfoldable pub update_group : Uuid → Uuid → UpdateGroupInput → Time → Exec S Chat
  unfolding edited_group
  update_group chat_id caller_id i now = do
    lift (validate_update_group i)
    c ← chats.get_by_id chat_id
    guard (not (is_direct c)) forbidden
    caller ← chats.get_member chat_id caller_id
    guard (can_manage_members caller.role) insufficient_rights
    chats.update (edited_group c i now)
    pure (edited_group c i now)

  unfoldable pub add_member : Uuid → Uuid → AddMemberInput → Time → Exec S (Unit {0})
  add_member chat_id caller_id i now = do
    lift (validate_add_member i)
    c ← chats.get_by_id chat_id
    guard (not (is_direct c)) forbidden
    caller ← chats.get_member chat_id caller_id
    guard (can_manage_members caller.role) insufficient_rights
    _ ← users.get_by_id i.user_id
    already ← chats.is_member chat_id i.user_id
    guard (not already) already_chat_member
    chats.add_member (new_member chat_id i.user_id member now)

  unfoldable pub remove_member : Uuid → Uuid → Uuid → Exec S (Unit {0})
  unfolding check_removal
  remove_member chat_id caller_id target_id = do
    c ← chats.get_by_id chat_id
    guard (not (is_direct c)) forbidden
    caller ← chats.get_member chat_id caller_id
    guard (can_manage_members caller.role) insufficient_rights
    target ← chats.get_member chat_id target_id
    lift (check_removal caller.role target.role)
    chats.remove_member chat_id target_id

  unfoldable pub change_member_role : Uuid → Uuid → ChangeMemberRoleInput → Exec S (Unit {0})
  unfolding role_of
  change_member_role chat_id caller_id i = do
    lift (validate_change_role i)
    guard (not (i.user_id == caller_id)) forbidden
    caller ← chats.get_member chat_id caller_id
    guard (is_owner caller.role) insufficient_rights
    _ ← chats.get_member chat_id i.user_id
    chats.update_member_role chat_id i.user_id (role_of i.role)

  -- The owner hands the chat over, or deletes it as the last member.
  unfoldable pub hand_over : Uuid → Uuid → Option ChatMember → Exec S (Unit {0})
  hand_over chat_id caller_id none = chats.delete chat_id
  hand_over chat_id caller_id (some next) = do
    chats.update_member_role chat_id next.user_id owner
    chats.remove_member chat_id caller_id

  unfoldable pub leave_chat : Uuid → Uuid → Exec S (Unit {0})
  unfolding hand_over next_owner
  leave_chat chat_id caller_id = do
    c ← chats.get_by_id chat_id
    guard (not (is_direct c)) forbidden
    caller ← chats.get_member chat_id caller_id
    if is_owner caller.role
        then (do
          members ← chats.get_members chat_id
          hand_over chat_id caller_id (next_owner members caller_id))
        else chats.remove_member chat_id caller_id
