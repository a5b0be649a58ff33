-- ===== src/UseCase/Chat/Handover.antt =====
-- internal/usecase/chat/chat.go, `LeaveChat`: the handover is two statements outside a
-- transaction.
use vibechat.Prelude.{suc, ◌≡◌, ◌≢◌, refl, none, some, find_first, arith}
use vibechat.Exec.{err, ◌>>=◌}
use vibechat.Domain.Errors.{driver}
use vibechat.Domain.User.{Uuid}
use vibechat.Domain.Chat.{ChatMember, owner, is_owner}
use vibechat.Storage.Tables.{MemberRow}
use vibechat.Storage.Connection.{remote, World, tables, statement}
use vibechat.Storage.Postgres.Chat
use vibechat.Storage.Postgres.Chat.{chat_repository}
use vibechat.Storage.Postgres.User.{user_repository}
use vibechat.Storage.Postgres.Effects.{update_member_role_found}
use vibechat.Storage.Sql.Chats.{is_row_of, set_role}
use vibechat.Storage.Sql.Users.{Collation}
use vibechat.Storage.Ownership.{IsOwned}
use vibechat.Storage.Ownership.Rows.{owners, owners-set_role}
use vibechat.Storage.Ownership.Writes.{weight-plain}
use vibechat.Storage.Ownership.Keys.{other_is_no_owner}
use vibechat.UseCase.Chat.Service.{hand_over}
use vibechat.UseCase.Chat.Ownership.{one_owner, weight-owner}

remote-update :
    (c v : Uuid) (w : World)
    → w.faults w.sent ≡ none
    → Chat.update_member_role remote c v owner w ≡ (
        let (r, d) = Chat.update_member_role tables c v owner w.db in
        (r, record w { db = d; sent = suc w.sent }))
unfolding Chat.update_member_role set_role statement ◌>>=◌
remote-update c v w e = rw (statement, e) refl

remote-remove :
    (c u : Uuid) (w : World) {n : _}
    → w.faults w.sent ≡ some n
    → Chat.remove_member remote c u w ≡ (err (driver n), record w { sent = suc w.sent })
unfolding Chat.remove_member statement ◌>>=◌
remote-remove c u w e = rw (statement, e) refl

module _ (col : Collation) (c u : Uuid) (m : ChatMember) (w : World) where
  hand_over_cut_lem :
      {s : MemberRow} {n : _}
      → find_first (is_row_of c m.user_id) w.db.members ≡ some s
      → w.faults w.sent ≡ none
      → w.faults (suc w.sent) ≡ some n
      → hand_over (chat_repository remote) (user_repository remote col) c u (some m) w ≡ (
        err (driver n),
        record w {
          db = (Chat.update_member_role tables c m.user_id owner w.db).1;
          sent = suc (suc w.sent);
        },
      )
  unfolding hand_over ◌>>=◌
  hand_over_cut_lem there first second =
      rw (remote-update c m.user_id w first, update_member_role_found c m.user_id w.db there owner)
        (remote-remove c u _ second)

  -- An owner leaves, the statement that makes somebody else the owner takes effect and the next
  -- one, which deletes the row of the one who leaves, fails: LeaveChat ends with the error of the
  -- driver, and the chat has two owners from then on. (Before, every group has one owner.)
  pub hand_over-two_owners :
      {r s : MemberRow} {n : _}
      → IsOwned w.db
      → u ≢ m.user_id
      → find_first (is_row_of c u) w.db.members ≡ some r
      → r.role ≡ owner
      → find_first (is_row_of c m.user_id) w.db.members ≡ some s
      → w.faults w.sent ≡ none
      → w.faults (suc w.sent) ≡ some n
      → let out = hand_over (chat_repository remote) (user_repository remote col) c u (some m) w in
        (out.0 ≡ err (driver n)) × (owners c out.1.db.members ≡ 2)
  unfolding is_owner
  hand_over-two_owners {s = s} o ne here own there first second =
      let one = one_owner col c u w.db o here own in
      let plain =
        other_is_no_owner c u m.user_id w.db.members o.members_distinct one ne here there
          (rw own refl) in
      rw
        (
          hand_over_cut_lem there first second,
          update_member_role_found c m.user_id w.db there owner,
        )
        (
          refl,
          omega (
            arith,
            one,
            weight-plain c c s.role plain,
            weight-owner c,
            owners-set_role c m.user_id c owner w.db.members o.members_distinct there,
          ),
        )
