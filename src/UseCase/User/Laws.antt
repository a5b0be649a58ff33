-- ===== src/UseCase/User/Laws.antt =====
-- internal/usecase/user/user.go over the bare tables: who may log in, and what the profile leaves
-- alone.
use mathlib.Core.Path.{subst}
use vibechat.Prelude.{
  ◌≡◌, refl, sym, ◌∙◌, ap, String, str_eq, Bool, List, [], ◌∷◌, map, Option, none, some, find_first,
  update_where, arith, if◌then◌else◌, Bool-cases, Option-cases, inl, inr, count_where, ◌==◌,
}
use vibechat.Exec.{Result, ok, err, pure, lift, try, guard, ◌>>=◌, ◌>>◌, state-bind-lift}
use vibechat.Exec.Reads.{Reads-pure, Reads-lift, Reads-try}
use vibechat.Exec.Stays.{Stays, Stays-read, Stays-steps}
use vibechat.Domain.Errors.{invalid_credentials}
use vibechat.Domain.User.{Uuid, Time, User}
use vibechat.Storage.Tables.{Db, UserRow}
use vibechat.Storage.Connection.{tables}
use vibechat.Storage.Postgres.User
use vibechat.Storage.Postgres.User.{user_repository, scan_one}
use vibechat.Storage.Postgres.Queries.{seek}
use vibechat.Storage.Postgres.Refines.{user_repository-UserReads}
use vibechat.Storage.Sql.Chats.{is_live_user}
use vibechat.Storage.Sql.Users.{
  Collation, has_email, select_by_email, update_user, broken, set_profile,
}
use vibechat.UseCase.User.Dto.{LoginInput, UpdateProfileInput, TokenPair, validate_login}
use vibechat.UseCase.User.Service.{
  TokenManager, PasswordHasher, issue_tokens, login, hide_unknown, update_profile,
  check_username_free,
}

get_by_email_lem :
    (col : Collation) (e : String)
    → User.get_by_email tables col e ≡ seek scan_one (λ d. find_first (has_email e) d.users)
unfolding User.get_by_email select_by_email ◌>>=◌
get_by_email_lem col e = refl

-- What a login answers, given the account with the email: no account and a wrong password are the
-- same to the caller.
abbrev pub answer :
    PasswordHasher → TokenManager → String → Option UserRow → Result (User × TokenPair)
answer hasher jwt password none = err invalid_credentials
answer hasher jwt password (some r) = elim (issue_tokens jwt r.user.id) [
  | ok tokens ↦
      if hasher.matches password r.user.password_hash
      then ok (r.user, tokens)
      else err invalid_credentials
  | err e ↦ if hasher.matches password r.user.password_hash then err e else err invalid_credentials
]

abbrev pub when_valid : {A : Type 0} → Result (Unit {0}) → Result A → Result A
when_valid (ok a) r = r
when_valid (err e) r = err e

login_flow :
    (valid : Result (Unit {0})) (row : Db → Option UserRow) (hasher : PasswordHasher)
    (jwt : TokenManager) (password : String) (d : Db)
    → (do
      lift valid
      found ← try (seek scan_one row)
      u ← lift (hide_unknown found)
      guard (hasher.matches password u.password_hash) invalid_credentials
      tokens ← lift (issue_tokens jwt u.id)
      pure (u, tokens))
        d
      ≡ (when_valid valid (answer hasher jwt password (row d)), d)
unfolding ◌>>=◌ scan_one hide_unknown guard
login_flow valid row hasher jwt password d = ground arith

-- Login answers by the input and the live account with the email alone: an invalid input first,
-- then the same error for an unknown email and for a wrong password, then the tokens or the error
-- of issuing them. It changes nothing.
pub login_exact :
    (col : Collation) (hasher : PasswordHasher) (jwt : TokenManager) (i : LoginInput) (d : Db)
    → login (user_repository tables col) hasher jwt i d ≡ (
      when_valid
          (validate_login i)
          (answer hasher jwt i.password (find_first (has_email i.email) d.users)),
      d,
    )
unfolding login
login_exact col hasher jwt i d = simp get_by_email_lem (
    login_flow (validate_login i) (λ d. find_first (has_email i.email) d.users) hasher jwt
      i.password d)

-- What only registration, the status and deletion may write.
abbrev pub secrets : List UserRow → List (Uuid × (String × Option Time))
secrets rs = map (λ (r : UserRow). (r.user.id, (r.user.password_hash, r.deleted_at))) rs

secrets-update :
    (p : UserRow → Bool) (u : User) (rs : List UserRow)
    → secrets (update_where p (set_profile u) rs) ≡ secrets rs
unfolding set_profile
secrets-update p u [] = refl
secrets-update p u (r ∷ rs) = elim (Bool-cases (p r)) [
  | inl e ↦
      rw e (ap (◌∷◌ (r.user.id, (r.user.password_hash, r.deleted_at))) (secrets-update p u rs))
  | inr e ↦
      rw e (ap (◌∷◌ (r.user.id, (r.user.password_hash, r.deleted_at))) (secrets-update p u rs))
]

update_user-secrets : (u : User) (d : Db) → secrets (update_user u d).1.users ≡ secrets d.users
unfolding update_user
update_user-secrets u d = elim (Bool-cases (count_where (is_live_user u.id) d.users == 0)) [
  | inl e ↦ rw e refl
  | inr e ↦ elim (Option-cases (broken u d)) [
    | inl n ↦ rw (e, n) (secrets-update (is_live_user u.id) u d.users)
    | inr (x, n) ↦ rw (e, n) refl
  ]
]

module _ (col : Collation) (hasher : PasswordHasher) (jwt : TokenManager)
    (before : List UserRow) where
  abbrev Kept : Db → Type 0
  Kept d = secrets d.users ≡ secrets before

  update-Kept : (u : User) → Stays Kept (User.update tables col u)
  unfolding User.update
  update-Kept u d h = subst Kept (sym (state-bind-lift _ _ d)) (update_user-secrets u d ∙ h)

  check_username_free-Kept :
      (id : Uuid) (u : User) (o : Option String)
      → Stays Kept (check_username_free (user_repository tables col) hasher jwt id u o)
  unfolding check_username_free
  check_username_free-Kept id u none = Stays-read Kept _ (Reads-pure tt)
  check_username_free-Kept id u (some name) = elim (Bool-cases (str_eq name u.username)) [
    | inl e ↦ rw e (Stays-read Kept _ (Reads-pure tt))
    | inr e ↦ rw e (
        Stays-steps Kept _ _
          (Stays-read Kept _
            (Reads-try _ ((user_repository-UserReads col).get_by_username-Reads name)))
          λ x. Stays-read Kept _ (Reads-lift _))
  ]

  update_profile-Kept :
      (id : Uuid) (i : UpdateProfileInput) (now : Time)
      → Stays Kept (update_profile (user_repository tables col) hasher jwt id i now)
  unfolding update_profile
  update_profile-Kept id i now = Stays-steps Kept _ _ (Stays-read Kept _ (Reads-lift _)) λ _.
      Stays-steps Kept _ _ (Stays-read Kept _ ((user_repository-UserReads col).get_by_id-Reads id))
        λ u.
          Stays-steps Kept _ _ (check_username_free-Kept id u i.username)
            λ _. Stays-steps Kept _ _ (update-Kept _) λ _. Stays-read Kept _ (Reads-pure _)

-- UpdateProfile, however it ends, leaves the identifier, the password hash and the deletion mark of
-- every account as they are.
pub update_profile-secrets :
    (col : Collation) (hasher : PasswordHasher) (jwt : TokenManager) (id : Uuid)
    (i : UpdateProfileInput) (now : Time) (d : Db)
    → secrets (update_profile (user_repository tables col) hasher jwt id i now d).1.users
      ≡ secrets d.users
update_profile-secrets col hasher jwt id i now d =
    update_profile-Kept col hasher jwt d.users id i now d refl
