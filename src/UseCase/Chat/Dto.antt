-- ===== src/UseCase/Chat/Dto.antt =====
-- internal/usecase/chat/dto.go: the inputs of the service and their validation.
use vibechat.Prelude.{String, not, List, [], ◌∷◌, Option, none, some, ◌==◌}
use vibechat.Exec.{Result}
use vibechat.Domain.User.{Uuid, nil_uuid}
use vibechat.Validate.{V, new, check, result, min_len, max_len, is_url, one_of}

pub record CreateDirectInput : Type 0 where
  pub target_user_id : Uuid

unfoldable pub validate_create_direct : CreateDirectInput → Result (Unit {0})
unfolding check result
validate_create_direct i =
    result (check new (not (i.target_user_id == nil_uuid)) "target_user_id is required")

pub record CreateGroupInput : Type 0 where
  pub name : String
  pub description : String
  pub member_ids : List Uuid

unfoldable pub validate_create_group : CreateGroupInput → Result (Unit {0})
unfolding check result
validate_create_group i =
    let v = check new (min_len i.name 1) "name is required" in
    let v' = check v (max_len i.name 100) "name must be at most 100 characters" in
    result (check v' (max_len i.description 500) "description must be at most 500 characters")

pub record UpdateGroupInput : Type 0 where
  pub name : Option String
  pub description : Option String
  pub avatar_url : Option String

check_name : Option String → V → V
unfolding check
check_name none v = v
check_name (some s) v =
    check (check v (min_len s 1) "name must not be empty") (max_len s 100)
      "name must be at most 100 characters"

check_description : Option String → V → V
unfolding check
check_description none v = v
check_description (some s) v = check v (max_len s 500) "description must be at most 500 characters"

check_avatar_url : Option String → V → V
unfolding check
check_avatar_url none v = v
check_avatar_url (some s) v = check v (is_url s) "avatar_url must be a valid HTTP/HTTPS URL"

unfoldable pub validate_update_group : UpdateGroupInput → Result (Unit {0})
unfolding result check_name check_description check_avatar_url
validate_update_group i =
    result (check_avatar_url i.avatar_url (check_description i.description (check_name i.name new)))

pub record AddMemberInput : Type 0 where
  pub user_id : Uuid

unfoldable pub validate_add_member : AddMemberInput → Result (Unit {0})
unfolding check result
validate_add_member i = result (check new (not (i.user_id == nil_uuid)) "user_id is required")

-- The role is text until it is validated.
pub record ChangeMemberRoleInput : Type 0 where
  pub user_id : Uuid
  pub role : String

unfoldable pub validate_change_role : ChangeMemberRoleInput → Result (Unit {0})
unfolding check result one_of
validate_change_role i =
    let v = check new (not (i.user_id == nil_uuid)) "user_id is required" in
    result (check v (one_of i.role ("admin" ∷ "member" ∷ [])) "role must be one of: admin, member")
