-- ===== src/Storage/Ownership/Writes.antt =====
-- What each write of the repository of chats does to the owners.
use vibechat.Prelude.{
  true, false, not, ◌≡◌, ◌≢◌, sym, some, find_first, where_, update_where, arith,
}
use vibechat.Exec.{state-bind-lift}
use vibechat.Domain.User.{Uuid}
use vibechat.Domain.Chat.{MemberRole, owner, is_owner}
use vibechat.Storage.Tables.{Db, MemberRow}
use vibechat.Storage.Connection.{tables}
use vibechat.Storage.Postgres.Chat
use vibechat.Storage.Sql.Chats.{is_row_of, delete_member, set_role}
use vibechat.Storage.Ownership.{IsOwned}
use vibechat.Storage.Ownership.Rows.{weight, Distinct, with_role, owners-delete, owners-set_role}
use vibechat.Storage.Ownership.Keys.{Distinct-delete, Distinct-set, find-set_ne}

-- The tables after each write.
state-remove_member :
    (c u : Uuid) (d : Db)
    → (Chat.remove_member tables c u d).1
      ≡ record d { members = where_ (λ x. not (is_row_of c u x)) d.members }
unfolding Chat.remove_member delete_member
state-remove_member c u d = state-bind-lift _ _ d

state-update_member_role :
    (c u : Uuid) (new : MemberRole) (d : Db)
    → (Chat.update_member_role tables c u new d).1
      ≡ record d { members = update_where (is_row_of c u) (with_role new) d.members }
unfolding Chat.update_member_role set_role
state-update_member_role c u new d = state-bind-lift _ _ d

-- Roles that count the same.
weight-eq : (k c : Uuid) (a b : MemberRole) → is_owner a ≡ is_owner b → weight k c a ≡ weight k c b
unfolding weight
weight-eq k c a b e = rw e

pub weight-plain : (k c : Uuid) (a : MemberRole) → is_owner a ≡ false → weight k c a ≡ 0
unfolding weight
weight-plain k c a e = ground arith

module _ (c u : Uuid) (d : Db) (o : IsOwned d) {r : MemberRow}
    (found : find_first (is_row_of c u) d.members ≡ some r) where
  -- Removing somebody who is no owner.
  pub remove_member-IsOwned : is_owner r.role ≡ false → IsOwned (Chat.remove_member tables c u d).1
  remove_member-IsOwned plain = rw state-remove_member (record {
    chats_distinct = o.chats_distinct;
    members_distinct = Distinct-delete c u d.members o.members_distinct;
    owned = λ k. omega (
      arith,
      o.owned k,
      weight-plain k c r.role plain,
      owners-delete c u k d.members o.members_distinct found,
    );
  })

  -- A role that counts as much as the old one.
  pub update_member_role-IsOwned :
      (new : MemberRole)
      → is_owner r.role ≡ is_owner new
      → IsOwned (Chat.update_member_role tables c u new d).1
  update_member_role-IsOwned new same = rw state-update_member_role (record {
    chats_distinct = o.chats_distinct;
    members_distinct = Distinct-set c u new d.members o.members_distinct;
    owned = λ k. omega (
      arith,
      o.owned k,
      weight-eq k c r.role new same,
      owners-set_role c u k new d.members o.members_distinct found,
    );
  })

-- The owner hands the chat over to another member and leaves.
pub hand_over-IsOwned :
    (c u v : Uuid) (d : Db) {r s : MemberRow}
    → IsOwned d
    → u ≢ v
    → find_first (is_row_of c u) d.members ≡ some r
    → find_first (is_row_of c v) d.members ≡ some s
    → is_owner r.role ≡ true
    → is_owner s.role ≡ false
    → IsOwned (Chat.remove_member tables c u (Chat.update_member_role tables c v owner d).1).1
unfolding is_owner
hand_over-IsOwned c u v d {r} {s} o ne fr fs own plain =
    let handed = update_where (is_row_of c v) (with_role owner) d.members in
    let keys : Distinct handed = Distinct-set c v owner d.members o.members_distinct in
    let there : find_first (is_row_of c u) handed ≡ some r =
      (rw (find-set_ne c v owner u d.members (λ e. ne (sym e))) fr) in
    rw (state-remove_member, state-update_member_role)
      (record {
        chats_distinct = o.chats_distinct;
        members_distinct = Distinct-delete c u handed keys;
        owned = λ k. omega (
          arith,
          o.owned k,
          weight-plain k c s.role plain,
          weight-eq k c r.role owner own,
          owners-set_role c v k owner d.members o.members_distinct fs,
          owners-delete c u k handed keys there,
        );
      })
