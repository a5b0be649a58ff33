-- ===== src/UseCase/User/Faults.antt =====
-- internal/usecase/user/user.go, `Register`, behind a network whose statements may fail: what is left of
-- a registration that gets no tokens.
use vibechat.Prelude.{
  ℕ, suc, ◌≡◌, refl, sym, ap, ◌∙◌, false, none, some, find_first, any, Option-cases, inl, inr, ◌⊎◌,
}
use vibechat.Exec.{Exec, Result, resume, lift, try, ok, err, ◌>>=◌, state-bind-lift}
use vibechat.Exec.Runs.{Outcome, Runs, Reads}
use mathlib.Core.Path.{subst}
use vibechat.Storage.Connection.Laws.{Any, shown, remote-IsConnection}
use vibechat.Domain.Errors.{Error}
use vibechat.Domain.User.{Uuid, Time, User}
use vibechat.Storage.Tables.{Db}
use vibechat.Storage.Connection.{World, tables, remote, statement}
use vibechat.Storage.Postgres.User
use vibechat.Storage.Postgres.User.{user_repository, map_user_constraint_err, created}
use vibechat.Storage.Postgres.Refines.{user_repository-UserReads, user_repository-UserRefines}
use vibechat.Storage.Sql.Chats.{is_live_user}
use vibechat.Storage.Sql.Users.{Collation, soft_delete_user}
use vibechat.Storage.Sql.Users.Keys.{has_user_id}
use vibechat.UseCase.User.Dto.{RegisterInput}
use vibechat.UseCase.User.Service.{
  TokenManager, PasswordHasher, issue_tokens, register, or_roll_back, new_user,
}
use vibechat.UseCase.User.Rollback.{
  SameAccounts, added, create-cases, added_and_deleted, SameAccounts-deleted, new_is_live,
}

-- The last statement failed, and the account with the identifier is there.
pub record Undeleted (id : Uuid) (w : World) : Type 0 where
  pub number : ℕ
  pub code : ℕ
  pub last : w.sent ≡ suc number
  pub failed : w.faults number ≡ some code
  pub account : User
  pub same_id : account.id ≡ id
  pub stays :
      find_first (is_live_user id) w.db.users ≡ some (record { user = account; deleted_at = none })

module _ (col : Collation) (hasher : PasswordHasher) (jwt : TokenManager) (b : Db) where
  -- What is left of a registration that had no tokens.
  Left : Uuid → World → Type 0
  Left id w = SameAccounts b w.db ⊎ Undeleted id w

  Leads : {A : Type 0} → Uuid → Exec World A → Type 0
  Leads id m = (w : World) → SameAccounts b w.db → Left id (m w).1

  SameAccounts-undone :
      (u : User) (d d' : Db)
      → any (has_user_id u.id) d.users ≡ false
      → d' ≡ added u d
      → SameAccounts b d
      → SameAccounts b (soft_delete_user u.id d').1
  SameAccounts-undone u d d' fresh at same =
      rw (at, added_and_deleted col u d fresh) (SameAccounts-deleted col u b d same)

  found_added :
      (u : User) (d d' : Db)
      → d' ≡ added u d
      → find_first (is_live_user u.id) d'.users ≡ some (record { user = u; deleted_at = none })
  found_added u d d' at = rw (at, new_is_live col u) refl

  undone-Left :
      (u : User) (d : Db) (w : World)
      → any (has_user_id u.id) d.users ≡ false
      → w.db ≡ added u d
      → SameAccounts b d
      → Left u.id (statement ℕ (soft_delete_user u.id) w).1
  unfolding statement Left
  undone-Left u d w fresh at same = elim (Option-cases (w.faults w.sent)) [
    | inl n ↦ rw (statement, n) (inl (SameAccounts-undone u d w.db fresh at same))
    | inr (c, n) ↦
        rw (statement, n)
          (inr (record {
            number = w.sent;
            code = c;
            last = refl;
            failed = n;
            account = u;
            same_id = refl;
            stays = found_added u d w.db at;
          }))
  ]

  rolled_back :
      (u : User) (e : Error) (d : Db) (w : World)
      → any (has_user_id u.id) d.users ≡ false
      → w.db ≡ added u d
      → SameAccounts b d
      → Left u.id (or_roll_back (user_repository remote col) hasher jwt u (err e) w).1
  unfolding or_roll_back User.delete ◌>>=◌
  rolled_back u e d w fresh at same =
      subst (Left u.id) (sym (state-bind-lift (statement ℕ (soft_delete_user u.id)) (λ n. ok tt) w))
        (undone-Left u d w fresh at same)

  opened :
      (u : User) (e : Error) (w : World) (out : Result (Unit {0}) × World)
      → SameAccounts b w.db
      → Outcome shown w out (User.create tables col u w.db)
      → Left u.id
          (resume out.0
            (λ _. or_roll_back (user_repository remote col) hasher jwt u (err e))
            out.1).1
  unfolding Left
  opened u e w out same (Outcome.faulted n r v) = rw r (inl (subst (SameAccounts b) (sym v) same))
  opened u e w out same (Outcome.follows r v) = elim (create-cases col u w.db) [
    | inl (x, c) ↦
        let r' : out.0 ≡ err x = r ∙ ap (λ p. p.0) c in
        let v' : (out.1).db ≡ w.db = v ∙ ap (λ p. p.1) c in
        rw r' (inl (subst (SameAccounts b) (sym v') same))
    | inr (fresh, c) ↦
        let r' : out.0 ≡ ok tt = r ∙ ap (λ p. p.0) c in
        let v' : (out.1).db ≡ added u w.db = v ∙ ap (λ p. p.1) c in
        rw r' (rolled_back u e w.db out.1 fresh v' same)
  ]

  created-Leads :
      (u : User) (e : Error)
      → Leads u.id (
          User.create remote col u >>= λ _.
          or_roll_back (user_repository remote col) hasher jwt u (err e))
  unfolding ◌>>=◌ Leads
  created-Leads u e w same =
      opened u e w (User.create remote col u w) same
        (((user_repository-UserRefines remote shown Any remote-IsConnection col).create-Runs u).at w
          tt).1

  -- A query, or a value.
  steps-Leads :
      {A C : Type 0} (id : Uuid) (m : Exec World A) (f : A → Exec World C)
      → ((w : World) → (m w).1.db ≡ w.db)
      → ((a : A) → Leads id (f a))
      → Leads id (m >>= f)
  unfolding ◌>>=◌ Leads Left
  steps-Leads id m f keeps later w same =
      after (m w).0 (m w).1 (subst (SameAccounts b) (sym (keeps w)) same)
    where
      after : (r : Result _) (w' : World) → SameAccounts b w'.db → Left id (resume r f w').1
      after (ok a) w' same' = later a w' same'
      after (err x) w' same' = inl same'

  query-same :
      {A : Type 0} (m : Exec World A) (spec : Exec Db A)
      → Runs shown Any m spec
      → Reads spec
      → (w : World) → (try m w).1.db ≡ w.db
  unfolding try
  query-same m spec runs reads w = shown_same ((runs.at w tt).1)
    where
      shown_same : Outcome shown w (m w) (spec w.db) → (m w).1.db ≡ w.db
      shown_same (Outcome.faulted n r v) = v
      shown_same (Outcome.follows r v) = v ∙ reads.same w.db

  register-Leads :
      (i : RegisterInput) (now : Time) (id : Uuid) {e : Error}
      → issue_tokens jwt id ≡ err e
      → Leads id (register (user_repository remote col) hasher jwt i now id)
  unfolding register lift
  register-Leads i now id {e} no_tokens =
      let reads = user_repository-UserReads col in
      let runs = user_repository-UserRefines remote shown Any remote-IsConnection col in
      steps-Leads id _ _ (λ w. refl)
        λ _.
          steps-Leads id _ _
            (query-same _ _ (runs.get_by_email-Runs _) (reads.get_by_email-Reads _))
            λ _.
              steps-Leads id _ _ (λ w. refl)
                λ _.
                  steps-Leads id _ _
                    (query-same _ _ (runs.get_by_username-Runs _) (reads.get_by_username-Reads _))
                    λ _.
                      steps-Leads id _ _ (λ w. refl)
                        λ _.
                          steps-Leads id _ _ (λ w. refl)
                            λ hash. rw no_tokens (created-Leads (new_user id i hash now) e)

-- A registration that gets no tokens, whichever statements fail: every lookup of a live account, by
-- identifier, email or name, finds what it found before, or the last statement has failed, and the
-- new account is there.
pub register_without_tokens :
    (col : Collation) (hasher : PasswordHasher) (jwt : TokenManager) (i : RegisterInput)
    (now : Time) (id : Uuid) (w : World) {e : Error}
    → issue_tokens jwt id ≡ err e
    → let w' = (register (user_repository remote col) hasher jwt i now id w).1 in
      SameAccounts w.db w'.db ⊎ Undeleted id w'
unfolding Leads Left
register_without_tokens col hasher jwt i now id w no_tokens =
    register-Leads col hasher jwt w.db i now id no_tokens w
      (record { by_id = λ k. refl; by_email = λ e. refl; by_username = λ n. refl })
