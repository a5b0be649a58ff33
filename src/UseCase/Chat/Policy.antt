-- ===== src/UseCase/Chat/Policy.antt =====
-- Who may do what in a chat: the rules that the service enforces, as tables over the kind of the
-- chat and the roles of the people.
use vibechat.Prelude.{Bool, true, false, Option, none, some}
use vibechat.Exec.{Result, ok, err, Exec}
use vibechat.Domain.Errors.{
  chat_not_found, forbidden, not_chat_member, insufficient_rights, cannot_remove_owner,
  already_chat_member, user_not_found,
}
use vibechat.Domain.User.{Uuid}
use vibechat.Domain.Chat.{ChatType, direct, group, MemberRole, owner, admin, member, ChatMember}
use vibechat.Storage.Tables.{Db, ChatRow, UserRow}
use vibechat.Storage.Postgres.Queries.{chat_in, member_in, user_in}

abbrev pub kind : Option ChatRow → Option ChatType
kind none = none
kind (some r) = some r.type

abbrev pub role : Option ChatMember → Option MemberRole
role none = none
role (some m) = some m.role

abbrev pub exists_user : Option UserRow → Bool
exists_user none = false
exists_user (some u) = true

-- The kind of a chat that is not deleted, the role of an active user in a chat, and whether a user
-- is active.
abbrev pub kind_of : Uuid → Db → Option ChatType
kind_of c d = kind (chat_in c d)

abbrev pub role_in : Uuid → Uuid → Db → Option MemberRole
role_in c u d = role (member_in c u d)

abbrev pub is_active : Uuid → Db → Bool
is_active u d = exists_user (user_in u d)

-- One rule after another.
infixr 20 ◌▸◌
abbrev pub ◌▸◌ : Result (Unit {0}) → Result (Unit {0}) → Result (Unit {0})
ok _ ▸ r = r
err e ▸ r = err e

-- What a caller needs to manage a chat: it is a group, and the caller has rights in it.
abbrev pub may_manage : Option ChatType → Option MemberRole → Result (Unit {0})
may_manage none caller = err chat_not_found
may_manage (some direct) caller = err forbidden
may_manage (some group) none = err not_chat_member
may_manage (some group) (some owner) = ok tt
may_manage (some group) (some admin) = ok tt
may_manage (some group) (some member) = err insufficient_rights

-- An owner removes admins and members, an admin removes members, and nobody removes an owner.
abbrev pub may_remove : Option MemberRole → Option MemberRole → Result (Unit {0})
may_remove caller none = err not_chat_member
may_remove caller (some owner) = err cannot_remove_owner
may_remove (some owner) (some admin) = ok tt
may_remove caller (some admin) = err insufficient_rights
may_remove caller (some member) = ok tt

-- A new member is an active user who is not in the chat yet.
abbrev pub may_join : Bool → Bool → Result (Unit {0})
may_join false already = err user_not_found
may_join true true = err already_chat_member
may_join true false = ok tt

-- Only the owner changes roles, and only those of the others in the chat.
abbrev pub may_change_role : Bool → Option MemberRole → Option MemberRole → Result (Unit {0})
may_change_role true caller target = err forbidden
may_change_role false none target = err not_chat_member
may_change_role false (some owner) none = err not_chat_member
may_change_role false (some owner) (some r) = ok tt
may_change_role false (some admin) target = err insufficient_rights
may_change_role false (some member) target = err insufficient_rights

-- A request that is decided first and then writes.
unfoldable pub settle {ℓ} : {A : Type ℓ} → Result (Unit {0}) → Exec Db A → Exec Db A
settle (ok _) write d = write d
settle (err e) write d = (err e, d)
