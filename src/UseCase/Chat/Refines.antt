-- ===== src/UseCase/Chat/Refines.antt =====
-- The service over repositories that keep their promise runs as the service over the tables: each
-- operation but `LeaveChat` happens as a whole, or stops on an error of the driver and changes
-- nothing. (`LeaveChat` writes twice.)
use vibechat.Prelude.{List, [], ◌∷◌, ◌≡◌, refl, Bool-cases, ◌==◌, inl, inr}
use vibechat.Exec.{Result, ok, err, raise}
use vibechat.Exec.Runs.{
  Runs, Reads, Runs-pure, Runs-raise, Runs-guard, Runs-if, Runs-bind, Runs-bind-pure, Runs-try,
}
use vibechat.Exec.Reads.{Reads-guard, Reads-pure, Reads-bind}
use vibechat.Exec.Steps.{after_check, after_guard}
use vibechat.Domain.Errors.{chat_not_found, driver}
use vibechat.Domain.User.{Uuid, Time, UserRepository}
use vibechat.Domain.Chat.{Chat, ChatMember, ChatRepository}
use vibechat.Domain.Refines.{ChatReads, ChatRefines, UserReads, UserRefines}
use vibechat.UseCase.Chat.Dto.{
  CreateDirectInput, CreateGroupInput, UpdateGroupInput, AddMemberInput, ChangeMemberRoleInput,
}
use vibechat.UseCase.Chat.Service
use vibechat.UseCase.Chat.Service.{
  assert_member, open_direct, create_direct, check_users, create_group, get_chat, get_members,
  update_group, add_member, remove_member, change_member_role,
}

module _ {S D : Type 0} (chats : ChatRepository S) (users : UserRepository S)
    (chats' : ChatRepository D) (users' : UserRepository D) (view : S → D) (Inv : S → Type 0)
    (cr : ChatRefines chats chats' view Inv) (rd : ChatReads chats')
    (ur : UserRefines users users' view Inv) (ud : UserReads users') where
  assert_member-Runs :
      (c u : Uuid) → Runs view Inv (assert_member chats users c u) (assert_member chats' users' c u)
  unfolding assert_member
  assert_member-Runs c u =
      Runs-bind _ _ _ _ (cr.is_member-Runs c u) (rd.is_member-Reads c u) λ b. Runs-guard b _

  assert_member-Reads : (c u : Uuid) → Reads (assert_member chats' users' c u)
  unfolding assert_member
  assert_member-Reads c u = Reads-bind _ _ (rd.is_member-Reads c u) λ b. Reads-guard b _

  pub get_chat-Runs :
      (c u : Uuid) → Runs view Inv (get_chat chats users c u) (get_chat chats' users' c u)
  unfolding get_chat
  get_chat-Runs c u =
      Runs-bind _ _ _ _ (assert_member-Runs c u) (assert_member-Reads c u) λ _. cr.get_by_id-Runs c

  pub get_members-Runs :
      (c u : Uuid) → Runs view Inv (get_members chats users c u) (get_members chats' users' c u)
  unfolding get_members
  get_members-Runs c u =
      Runs-bind _ _ _ _ (assert_member-Runs c u) (assert_member-Reads c u)
        λ _. cr.get_members-Runs c

  open_direct-Runs :
      (c : Chat) (ms : List ChatMember) (x : Result Chat)
      → Runs view Inv (open_direct chats users c ms x) (open_direct chats' users' c ms x)
  unfolding open_direct
  open_direct-Runs c ms (ok existing) = Runs-pure _
  open_direct-Runs c ms (err chat_not_found) =
      Runs-bind-pure _ _ _ (cr.create_with_members-Runs c ms)
  open_direct-Runs c ms (err e) = Runs-raise _

  open_direct_stops :
      (c : Chat) (ms : List ChatMember) (n : _) (t : S)
      → open_direct chats users c ms (err (driver n)) t ≡ (err (driver n), t)
  unfolding open_direct raise
  open_direct_stops c ms n t = refl

  pub create_direct-Runs :
      (u : Uuid) (i : CreateDirectInput) (now : Time) (id : Uuid)
      → Runs view Inv
          (create_direct chats users u i now id)
          (create_direct chats' users' u i now id)
  unfolding create_direct
  create_direct-Runs u i now id = after_check _ _ _ (
      after_guard _ _ _ _ (
        Runs-bind _ _ _ _ (ur.get_by_id-Runs _) (ud.get_by_id-Reads _) λ _.
          Runs-try _ _ _ _ (cr.get_direct_chat-Runs _ _) (rd.get_direct_chat-Reads _ _)
            (λ x. open_direct-Runs _ _ x)
            (λ n t.
              open_direct_stops (Service.new_direct id u now)
                (Service.direct_members id u i.target_user_id now) n t)))

  check_users-Runs :
      (u : Uuid) (ids : List Uuid)
      → Runs view Inv (check_users chats users u ids) (check_users chats' users' u ids)
  unfolding check_users
  check_users-Runs u [] = Runs-pure tt
  check_users-Runs u (i ∷ is) =
      let next = check_users-Runs u is in
      Runs-if (i == u) _ _ _ _ next
        (Runs-bind _ _ _ _ (ur.get_by_id-Runs i) (ud.get_by_id-Reads i) λ _. next)

  check_users-Reads : (u : Uuid) (ids : List Uuid) → Reads (check_users chats' users' u ids)
  unfolding check_users
  check_users-Reads u [] = Reads-pure tt
  check_users-Reads u (i ∷ is) =
      let next = check_users-Reads u is in
      elim (Bool-cases (i == u)) [
        | inl e ↦ rw e next
        | inr e ↦ rw e (Reads-bind _ _ (ud.get_by_id-Reads i) λ _. next)
      ]

  pub create_group-Runs :
      (u : Uuid) (i : CreateGroupInput) (now : Time) (id : Uuid)
      → Runs view Inv (create_group chats users u i now id) (create_group chats' users' u i now id)
  unfolding create_group
  create_group-Runs u i now id = after_check _ _ _ (
      Runs-bind _ _ _ _ (check_users-Runs u _) (check_users-Reads u _)
        λ _. Runs-bind-pure _ _ _ (cr.create_with_members-Runs _ _))

  pub update_group-Runs :
      (c u : Uuid) (i : UpdateGroupInput) (now : Time)
      → Runs view Inv (update_group chats users c u i now) (update_group chats' users' c u i now)
  unfolding update_group
  update_group-Runs c u i now = after_check _ _ _ (
      Runs-bind _ _ _ _ (cr.get_by_id-Runs c) (rd.get_by_id-Reads c) λ _. after_guard _ _ _ _ (
        Runs-bind _ _ _ _ (cr.get_member-Runs c u) (rd.get_member-Reads c u)
          λ _. after_guard _ _ _ _ (Runs-bind-pure _ _ _ (cr.update-Runs _))))

  pub add_member-Runs :
      (c u : Uuid) (i : AddMemberInput) (now : Time)
      → Runs view Inv (add_member chats users c u i now) (add_member chats' users' c u i now)
  unfolding add_member
  add_member-Runs c u i now = after_check _ _ _ (
      Runs-bind _ _ _ _ (cr.get_by_id-Runs c) (rd.get_by_id-Reads c) λ _. after_guard _ _ _ _ (
        Runs-bind _ _ _ _ (cr.get_member-Runs c u) (rd.get_member-Reads c u) λ _.
          after_guard _ _ _ _ (
            Runs-bind _ _ _ _ (ur.get_by_id-Runs _) (ud.get_by_id-Reads _) λ _.
              Runs-bind _ _ _ _ (cr.is_member-Runs c _) (rd.is_member-Reads c _)
                λ _. after_guard _ _ _ _ (cr.add_member-Runs _))))

  pub remove_member-Runs :
      (c u t : Uuid)
      → Runs view Inv (remove_member chats users c u t) (remove_member chats' users' c u t)
  unfolding remove_member
  remove_member-Runs c u t = Runs-bind _ _ _ _ (cr.get_by_id-Runs c) (rd.get_by_id-Reads c) λ _.
      after_guard _ _ _ _ (
        Runs-bind _ _ _ _ (cr.get_member-Runs c u) (rd.get_member-Reads c u) λ _.
          after_guard _ _ _ _ (
            Runs-bind _ _ _ _ (cr.get_member-Runs c t) (rd.get_member-Reads c t)
              λ _. after_check _ _ _ (cr.remove_member-Runs c t)))

  pub change_member_role-Runs :
      (c u : Uuid) (i : ChangeMemberRoleInput)
      → Runs view Inv
          (change_member_role chats users c u i)
          (change_member_role chats' users' c u i)
  unfolding change_member_role
  change_member_role-Runs c u i = after_check _ _ _ (
      after_guard _ _ _ _ (
        Runs-bind _ _ _ _ (cr.get_member-Runs c u) (rd.get_member-Reads c u) λ _.
          after_guard _ _ _ _ (
            Runs-bind _ _ _ _ (cr.get_member-Runs c _) (rd.get_member-Reads c _)
              λ _. cr.update_member_role-Runs _ _ _)))
