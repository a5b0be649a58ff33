-- ===== src/UseCase/Chat/Histories.antt =====
-- Sequences of requests to the service, behind a network that may fail any statement.
use vibechat.Prelude.{List, [], ◌∷◌, sym}
use mathlib.Core.Path.{subst}
use vibechat.Exec.{Result}
use vibechat.Exec.Runs.{Outcome}
use vibechat.Domain.User.{Uuid, Time}
use vibechat.Storage.Connection.{World}
use vibechat.Storage.Connection.Laws.{shown}
use vibechat.Storage.Ownership.{IsOwned}
use vibechat.Storage.Sql.Users.{Collation}
use vibechat.UseCase.Chat.Dto.{
  CreateDirectInput, CreateGroupInput, UpdateGroupInput, AddMemberInput, ChangeMemberRoleInput,
}
use vibechat.UseCase.Chat.Service
use vibechat.UseCase.Chat.Faults
use vibechat.UseCase.Chat.Faults.{chats, users}
use vibechat.UseCase.Chat.Exact
use vibechat.UseCase.Chat.Ownership
use vibechat.UseCase.Chat.Opened

-- The operations of `chat.UseCase` that change state, but `LeaveChat`.
pub data Request : Type 0 where
  open_direct : Uuid → CreateDirectInput → Time → Uuid → Request
  open_group : Uuid → CreateGroupInput → Time → Uuid → Request
  edit_group : Uuid → Uuid → UpdateGroupInput → Time → Request
  join : Uuid → Uuid → AddMemberInput → Time → Request
  expel : Uuid → Uuid → Uuid → Request
  promote : Uuid → Uuid → ChangeMemberRoleInput → Request

-- What is left of a state with the property, if the specification keeps it.
Outcome-keeps {ℓ κ} :
    {A : Type ℓ} (P : _ → Type κ) (w : World) {out : Result A × World} {want : Result A × _}
    → P w.db
    → P want.1
    → Outcome shown w out want
    → P out.1.db
Outcome-keeps P w before after (Outcome.faulted n e v) = subst P (sym v) before
Outcome-keeps P w before after (Outcome.follows e v) = subst P (sym v) after

module _ (col : Collation) where
  unfoldable pub perform : Request → World → World
  perform (open_direct u i now id) w =
      (Service.create_direct (chats col) (users col) u i now id w).1
  perform (open_group u i now id) w = (Service.create_group (chats col) (users col) u i now id w).1
  perform (edit_group c u i now) w = (Service.update_group (chats col) (users col) c u i now w).1
  perform (join c u i now) w = (Service.add_member (chats col) (users col) c u i now w).1
  perform (expel c u t) w = (Service.remove_member (chats col) (users col) c u t w).1
  perform (promote c u i) w = (Service.change_member_role (chats col) (users col) c u i w).1

  unfoldable pub perform_all : List Request → World → World
  unfolding perform
  perform_all [] w = w
  perform_all (r ∷ rs) w = perform_all rs (perform r w)

  perform-IsOwned : (r : Request) (w : World) → IsOwned w.db → IsOwned (perform r w).db
  unfolding perform
  perform-IsOwned (open_direct u i now id) w o =
      Outcome-keeps IsOwned w o (Opened.create_direct-IsOwned col u i now id w.db o)
        (Faults.create_direct_at col u i now id w)
  perform-IsOwned (open_group u i now id) w o =
      Outcome-keeps IsOwned w o (Opened.create_group-IsOwned col u i now id w.db o)
        (Faults.create_group_at col u i now id w)
  perform-IsOwned (edit_group c u i now) w o =
      Outcome-keeps IsOwned w o
        (rw Exact.update_group_exact at (Opened.update_group-IsOwned col c u i now w.db o))
        (Faults.update_group_at col c u i now w)
  perform-IsOwned (join c u i now) w o =
      Outcome-keeps IsOwned w o
        (rw Exact.add_member_exact at (Ownership.add_member-IsOwned col c u w.db o i now))
        (Faults.add_member_at col c u i now w)
  perform-IsOwned (expel c u t) w o =
      Outcome-keeps IsOwned w o
        (rw Exact.remove_member_exact at (Ownership.remove_member-IsOwned col c u w.db o t))
        (Faults.remove_member_at col c u t w)
  perform-IsOwned (promote c u i) w o =
      Outcome-keeps IsOwned w o
        (rw Exact.change_member_role_exact at
          (Ownership.change_member_role-IsOwned col c u w.db o i))
        (Faults.change_member_role_at col c u i w)

  -- After any sequence of requests other than LeaveChat, each run to its end before the next, and
  -- whichever statements fail on the way: if every group had exactly one owner and every direct
  -- chat none, and keys were distinct, then this still holds.
  pub perform_all-IsOwned :
      (rs : List Request) (w : World) → IsOwned w.db → IsOwned (perform_all rs w).db
  unfolding perform_all
  perform_all-IsOwned [] w o = o
  perform_all-IsOwned (r ∷ rs) w o = perform_all-IsOwned rs (perform r w) (perform-IsOwned r w o)
