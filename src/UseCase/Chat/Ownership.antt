-- ===== src/UseCase/Chat/Ownership.antt =====
-- The operations of the service over the bare tables keep the invariant of the roles.
use vibechat.Prelude.{
  ℕ, ◌≤◌, ◌≡◌, refl, sym, ◌∙◌, Bool, true, false, ◌==◌, arith, Option, none, some, find_first,
}
use vibechat.Exec.{Result, ok, err, Exec}
use vibechat.Domain.User.{Uuid, Time}
use vibechat.Domain.Chat.{ChatType, MemberRole, owner, admin, member, is_owner}
use vibechat.Storage.Tables.{Db, ChatRow, MemberRow}
use vibechat.Storage.Connection.{tables}
use vibechat.Storage.Postgres.Chat.{chat_repository}
use vibechat.Storage.Postgres.User.{user_repository}
use vibechat.Storage.Sql.Chats.{is_row_of, join_user}
use vibechat.Storage.Sql.Users.{Collation}
use vibechat.Storage.Ownership.{IsOwned, owners_due, has_id}
use vibechat.Storage.Ownership.Rows.{owners, weight}
use vibechat.Storage.Ownership.Writes
use vibechat.Storage.Ownership.Members
use vibechat.Storage.Ownership.Keys.{other_is_no_owner, weight-le-owners}
use vibechat.UseCase.Chat.Dto.{AddMemberInput, ChangeMemberRoleInput}
use vibechat.UseCase.Chat.Service
use vibechat.UseCase.Chat.Service.{role_of}
use vibechat.UseCase.Chat.Policy.{
  role, role_in, ◌▸◌, may_manage, may_remove, may_change_role, settle,
}
use vibechat.UseCase.Chat.Exact.{remove_member_exact, add_member_exact, change_member_role_exact}

-- A role comes from a row.
join_user-role :
    (d : Db) (r : MemberRow) {x : MemberRole} → role (join_user d r) ≡ some x → r.role ≡ x
unfolding join_user
join_user-role d r h = ground arith

role-row_of :
    (d : Db) (o : Option MemberRow) {x : MemberRole}
    → role (elim o [ none ↦ none | some r ↦ join_user d r ]) ≡ some x
    → (r : MemberRow) × (o ≡ some r) × (r.role ≡ x)
role-row_of d none h = absurd (cc)
role-row_of d (some r) h = (r, refl, join_user-role d r h)

pub role-row :
    (c u : Uuid) (d : Db) {x : MemberRole}
    → role_in c u d ≡ some x
    → (r : MemberRow) × (find_first (is_row_of c u) d.members ≡ some r) × (r.role ≡ x)
role-row c u d h = role-row_of d (find_first (is_row_of c u) d.members) h

-- A decided request keeps what its write keeps.
pub settle_keeps {ℓ κ} :
    {A : Type ℓ} (P : Db → Type κ) (r : Result (Unit {0})) (write : Exec Db A) (d : Db)
    → P d
    → (r ≡ ok tt → P (write d).1)
    → P (settle r write d).1
unfolding settle
settle_keeps P (ok a) write d p h = h refl
settle_keeps P (err e) write d p h = p

-- Whom the rules let a caller remove is in the chat and is no owner.
removable :
    (k : Option ChatType) (caller target : Option MemberRole)
    → (may_manage k caller ▸ may_remove caller target) ≡ ok tt
    → (r : MemberRole) × (target ≡ some r) × (is_owner r ≡ false)
unfolding is_owner
removable k caller none h = absurd (ground arith)
removable k caller (some owner) h = absurd (ground arith)
removable k caller (some admin) h = (admin, refl, refl)
removable k caller (some member) h = (member, refl, refl)

changeable :
    (valid : Result (Unit {0})) (self : Bool) (caller target : Option MemberRole)
    → (valid ▸ may_change_role self caller target) ≡ ok tt
    → (self ≡ false) × ((caller ≡ some owner) × ((r : MemberRole) × (target ≡ some r)))
changeable (err e) self caller target h = absurd (cc)
changeable (ok a) true caller target h = absurd (cc)
changeable (ok a) false none target h = absurd (cc)
changeable (ok a) false (some admin) target h = absurd (cc)
changeable (ok a) false (some member) target h = absurd (cc)
changeable (ok a) false (some owner) none h = absurd (cc)
changeable (ok a) false (some owner) (some r) h = (refl, (refl, (r, refl)))

role_of-is_owner : (s : _) → is_owner (role_of s) ≡ false
unfolding role_of is_owner
role_of-is_owner s = ground arith

owners_due_le : (x : Option ChatRow) → owners_due x ≤ 1
owners_due_le x = ground arith

pub weight-owner : (c : ℕ) → weight c c owner ≡ 1
unfolding weight is_owner
weight-owner c = ground arith

module _ (col : Collation) (c u : Uuid) (d : Db) (o : IsOwned d) where
  -- RemoveMember
  pub remove_member-IsOwned :
      (t : Uuid)
      → IsOwned
          (Service.remove_member (chat_repository tables) (user_repository tables col) c u t d).1
  remove_member-IsOwned t = rw remove_member_exact (
      settle_keeps IsOwned _ _ d o λ e.
        let (r, there, plain) = removable _ _ _ e in
        let (row, found, same) = role-row c t d there in
        Writes.remove_member-IsOwned c t d o found (rw same plain))

  -- AddMember
  pub add_member-IsOwned :
      (i : AddMemberInput) (now : Time)
      → IsOwned
          (Service.add_member (chat_repository tables) (user_repository tables col) c u i now d).1
  unfolding is_owner
  add_member-IsOwned i now =
      rw add_member_exact (settle_keeps IsOwned _ _ d o λ e. Members.add_member-IsOwned _ d refl o)

  -- the chat of an owner has one
  pub one_owner :
      {r : MemberRow}
      → find_first (is_row_of c u) d.members ≡ some r
      → r.role ≡ owner
      → owners c d.members ≡ 1
  one_owner {r} found own = omega (
    arith,
    o.owned c,
    owners_due_le (find_first (has_id c) d.chats),
    weight-owner c,
    (rw own at (weight-le-owners c u d.members found)),
  )

  other_than_owner :
      (t : Uuid) {r : MemberRow}
      → (t == u) ≡ false
      → role_in c u d ≡ some owner
      → find_first (is_row_of c t) d.members ≡ some r
      → is_owner r.role ≡ false
  unfolding is_owner
  other_than_owner t ne caller found =
      let (row, there, own) = role-row c u d caller in
      other_is_no_owner c u t d.members o.members_distinct (one_owner there own) (ground arith)
        there found (rw own refl)

  -- ChangeMemberRole
  pub change_member_role-IsOwned :
      (i : ChangeMemberRoleInput)
      → IsOwned
          (Service.change_member_role
            (chat_repository tables)
            (user_repository tables col)
            c
            u
            i
            d).1
  change_member_role-IsOwned i = rw change_member_role_exact (
      settle_keeps IsOwned _ _ d o λ e.
        let (ne, (caller, (x, there))) = changeable _ _ _ _ e in
        let (row, found, same) = role-row c i.user_id d there in
        Writes.update_member_role-IsOwned c i.user_id d o found (role_of i.role)
          (other_than_owner i.user_id ne caller found ∙ sym (role_of-is_owner i.role)))
