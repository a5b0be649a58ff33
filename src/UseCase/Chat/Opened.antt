-- ===== src/UseCase/Chat/Opened.antt =====
-- `CreateDirect`, `CreateGroup` and `UpdateGroup` over the bare tables keep the invariant of the
-- roles.
use vibechat.Prelude.{◌≡◌, refl, Bool-cases, inl, inr, any, ◌==◌, List, [], ◌∷◌, arith}
use vibechat.Exec.{Result, ok, err}
use vibechat.Exec.Reads.{Reads-pure, Reads-raise, Reads-lift, Reads-guard, Reads-try}
use vibechat.Exec.Stays.{Stays, Stays-read, Stays-steps}
use vibechat.Domain.Errors.{chat_not_found}
use vibechat.Domain.User.{Uuid, Time}
use vibechat.Domain.Chat.{Chat, ChatMember, is_owner}
use vibechat.Storage.Connection.{tables}
use vibechat.Storage.Postgres.Chat.{chat_repository}
use vibechat.Storage.Postgres.User.{user_repository}
use vibechat.Storage.Postgres.Refines.{chat_repository-ChatReads, user_repository-UserReads}
use vibechat.Storage.Sql.Chats.{chat_row}
use vibechat.Storage.Sql.Users.{Collation}
use vibechat.Storage.Ownership.{IsOwned}
use vibechat.Storage.Ownership.Rows.{weight}
use vibechat.Storage.Ownership.Chats.{update-IsOwned}
use vibechat.Storage.Ownership.Members.{Fits, weights, create_with_members-IsOwned}
use vibechat.UseCase.Chat.Dto.{CreateDirectInput, CreateGroupInput, UpdateGroupInput}
use vibechat.UseCase.Chat.Service.{
  create_direct, open_direct, new_direct, direct_members, create_group, check_users, new_group,
  group_members, add_unseen, update_group,
}

direct-Fits : (id u t : Uuid) (now : Time) → Fits (new_direct id u now) (direct_members id u t now)
unfolding new_direct direct_members weight is_owner chat_row
direct-Fits id u t now k = ground arith

add_unseen-weights :
    (k id : Uuid) (now : Time) (seen ids : List Uuid) → weights k (add_unseen id now seen ids) ≡ 0
unfolding add_unseen weight is_owner
add_unseen-weights k id now seen [] = refl
add_unseen-weights k id now seen (i ∷ is) = elim (Bool-cases (any (λ x. x == i) seen)) [
  | inl e ↦ rw (weights, e) (add_unseen-weights k id now seen is)
  | inr e ↦ rw (weights, e) (ground (arith, add_unseen-weights k id now (i ∷ seen) is))
]

group-Fits :
    (id u : Uuid) (i : CreateGroupInput) (now : Time)
    → Fits (new_group id u i now) (group_members id u i now)
unfolding new_group group_members weight is_owner chat_row
group-Fits id u i now k = ground (arith, add_unseen-weights k id now (u ∷ []) i.member_ids)

module _ (col : Collation) where
  open_direct-IsOwned :
      (c : Chat) (ms : List ChatMember) (x : Result Chat)
      → Fits c ms
      → Stays IsOwned (open_direct (chat_repository tables) (user_repository tables col) c ms x)
  unfolding open_direct
  open_direct-IsOwned c ms (ok existing) fits = Stays-read IsOwned _ (Reads-pure _)
  open_direct-IsOwned c ms (err chat_not_found) fits =
      Stays-steps IsOwned _ _ (λ d o. create_with_members-IsOwned c ms d fits o)
        λ _. Stays-read IsOwned _ (Reads-pure _)
  open_direct-IsOwned c ms (err e) fits = Stays-read IsOwned _ (Reads-raise _)

  -- CreateDirect
  pub create_direct-IsOwned :
      (u : Uuid) (i : CreateDirectInput) (now : Time) (id : Uuid)
      → Stays IsOwned
          (create_direct (chat_repository tables) (user_repository tables col) u i now id)
  unfolding create_direct
  create_direct-IsOwned u i now id =
      Stays-steps IsOwned _ _ (Stays-read IsOwned _ (Reads-lift _)) λ _.
        Stays-steps IsOwned _ _ (Stays-read IsOwned _ (Reads-guard _ _)) λ _.
          Stays-steps IsOwned _ _
            (Stays-read IsOwned _ ((user_repository-UserReads col).get_by_id-Reads _))
            λ _.
              Stays-steps IsOwned _ _
                (Stays-read IsOwned _
                  (Reads-try _ (chat_repository-ChatReads.get_direct_chat-Reads _ _)))
                λ x. open_direct-IsOwned _ _ x (direct-Fits id u i.target_user_id now)

  check_users-IsOwned :
      (u : Uuid) (ids : List Uuid)
      → Stays IsOwned (check_users (chat_repository tables) (user_repository tables col) u ids)
  unfolding check_users
  check_users-IsOwned u [] = Stays-read IsOwned _ (Reads-pure tt)
  check_users-IsOwned u (i ∷ is) = elim (Bool-cases (i == u)) [
    | inl e ↦ rw e (check_users-IsOwned u is)
    | inr e ↦ rw e (
        Stays-steps IsOwned _ _
          (Stays-read IsOwned _ ((user_repository-UserReads col).get_by_id-Reads i))
          λ _. check_users-IsOwned u is)
  ]

  -- CreateGroup
  pub create_group-IsOwned :
      (u : Uuid) (i : CreateGroupInput) (now : Time) (id : Uuid)
      → Stays IsOwned
          (create_group (chat_repository tables) (user_repository tables col) u i now id)
  unfolding create_group
  create_group-IsOwned u i now id =
      Stays-steps IsOwned _ _ (Stays-read IsOwned _ (Reads-lift _)) λ _.
        Stays-steps IsOwned _ _ (check_users-IsOwned u i.member_ids) λ _.
          Stays-steps IsOwned _ _
            (λ d o. create_with_members-IsOwned _ _ d (group-Fits id u i now) o)
            λ _. Stays-read IsOwned _ (Reads-pure _)

  -- UpdateGroup
  pub update_group-IsOwned :
      (c u : Uuid) (i : UpdateGroupInput) (now : Time)
      → Stays IsOwned (update_group (chat_repository tables) (user_repository tables col) c u i now)
  unfolding update_group
  update_group-IsOwned c u i now =
      Stays-steps IsOwned _ _ (Stays-read IsOwned _ (Reads-lift _)) λ _.
        Stays-steps IsOwned _ _ (Stays-read IsOwned _ (chat_repository-ChatReads.get_by_id-Reads c))
          λ _. Stays-steps IsOwned _ _ (Stays-read IsOwned _ (Reads-guard _ _)) λ _.
            Stays-steps IsOwned _ _
              (Stays-read IsOwned _ (chat_repository-ChatReads.get_member-Reads c u))
              λ _. Stays-steps IsOwned _ _ (Stays-read IsOwned _ (Reads-guard _ _)) λ _.
                Stays-steps IsOwned _ _ (λ d o. update-IsOwned _ d o)
                  λ _. Stays-read IsOwned _ (Reads-pure _)
