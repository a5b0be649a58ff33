-- ===== src/Storage/Cached/User/Origin.antt =====
-- internal/infrastructure/storage/postgres/user.go as the origin of a cache: what each call does to
-- the account that an id names, over the tables and over a connection that may fail.
use mathlib.Core.Path.{subst}
use vibechat.Prelude.{
  ◌≡◌, ◌≢◌, refl, sym, ◌∙◌, ap, Bool, true, false, List, [], ◌∷◌, Option, none, some, arith, ◌==◌,
  find_first, update_where, any, count_where, Bool-cases, Option-cases, inl, inr, str_eq,
}
use vibechat.Exec.{Result, ok, err, Exec, ◌>>=◌}
use vibechat.Exec.Runs.{Outcome, Runs}
use vibechat.Domain.Errors.{Error, driver, user_not_found, email_taken, username_taken}
use vibechat.Domain.User.{Uuid, User}
use vibechat.Domain.Refines.{UserReads, UserRefines}
use vibechat.Storage.Tables.{Db, UserRow, unique_violation}
use vibechat.Storage.Connection.{World, tables, remote}
use vibechat.Storage.Connection.Laws.{remote-IsConnection, shown, Any}
use vibechat.Storage.Postgres.User
use vibechat.Storage.Postgres.User.{user_repository, scan_one, map_user_constraint_err}
use vibechat.Storage.Postgres.Queries.{user_in, user_get_by_id_lem}
use vibechat.Storage.Postgres.Refines.{user_repository-UserReads, user_repository-UserRefines}
use vibechat.Storage.Sql.Chats.{is_live_user}
use vibechat.Storage.Sql.Users.{
  Collation, PgError, insert_user, update_user, set_profile, set_status, soft_delete_user, broken,
  objection,
}
use vibechat.Storage.Sql.Users.Keys.{objection-none}
use vibechat.Storage.Cached.User.Coherent.{IsUserStore}

-- The account with an id.
abbrev account_of : Option UserRow → Option User
account_of none = none
account_of (some r) = some r.user

abbrev pub account : Uuid → Db → Option User
account id d = account_of (user_in id d)

-- Changes to rows of one id do not show in a search for another.
find_first-update_other {ℓ} :
    {A : Type ℓ} (p q : A → Bool) (f : A → A) (xs : List A)
    → ((x : A) → p x ≡ true → (q x ≡ false) × (q (f x) ≡ false))
    → find_first q (update_where p f xs) ≡ find_first q xs
find_first-update_other p q f [] h = refl
find_first-update_other p q f (x ∷ xs) h = ground (arith, h x, find_first-update_other p q f xs h)

other_id :
    (j id : Uuid) (f : UserRow → UserRow)
    → ((r : UserRow) → (f r).user.id ≡ r.user.id)
    → j ≢ id
    → (us : List UserRow)
    → find_first (is_live_user j) (update_where (is_live_user id) f us)
      ≡ find_first (is_live_user j) us
unfolding is_live_user
other_id j id f same ne us =
    find_first-update_other (is_live_user id) (is_live_user j) f us
      λ x h. let e = same x in (ground arith, ground arith)

-- An update of the profile leaves the table alone, or it sets the columns of the live row and returns
-- without an error.
pub data UpdateUserEnd (u : User) (d : Db) : Result (Unit {0}) × Db → Type 0 where
  refused : (e : Error) → UpdateUserEnd u d (err e, d)
  changed :
      UpdateUserEnd u d
        (ok tt, record d { users = update_where (is_live_user u.id) (set_profile u) d.users })

refusal : (x : PgError) → (e : Error) × (map_user_constraint_err x ≡ err e)
unfolding map_user_constraint_err
refusal x = elim (Bool-cases (x.code == unique_violation)) [
  | inl c ↦ elim (Bool-cases (str_eq x.constraint_name "uidx_users_email")) [
    | inl m ↦ (email_taken, rw (map_user_constraint_err, c, m) refl)
    | inr m ↦ elim (Bool-cases (str_eq x.constraint_name "uidx_users_username")) [
      | inl n ↦ (username_taken, rw (map_user_constraint_err, c, m, n) refl)
      | inr n ↦ (driver x.code, rw (map_user_constraint_err, c, m, n) refl)
    ]
  ]
  | inr c ↦ (driver x.code, rw (map_user_constraint_err, c) refl)
]

update-UpdateUserEnd :
    (col : Collation) (u : User) (d : Db) → UpdateUserEnd u d (User.update tables col u d)
unfolding User.update ◌>>=◌ update_user
update-UpdateUserEnd col u d =
    let n = count_where (is_live_user u.id) d.users in
    elim (Bool-cases (n == 0)) [
      | inl e ↦ rw (update_user, e) (UpdateUserEnd.refused user_not_found)
      | inr e ↦ elim (Option-cases (broken u d)) [
        | inl b ↦ rw (update_user, e, b, e) UpdateUserEnd.changed
        | inr (x, b) ↦
            let (error, m) = refusal x in rw (update_user, e, b, m) (UpdateUserEnd.refused error)
      ]
    ]

UpdateUserEnd-other :
    (u : User) (d : Db) (out : Result (Unit {0}) × Db)
    → UpdateUserEnd u d out
    → (j : Uuid) → j ≢ u.id
    → account j out.1 ≡ account j d
unfolding set_profile
UpdateUserEnd-other u d out (refused e) j ne = refl
UpdateUserEnd-other u d out changed j ne =
    ap account_of (other_id j u.id (set_profile u) (λ r. refl) ne d.users)

UpdateUserEnd-failed :
    (u : User) (d : Db) (out : Result (Unit {0}) × Db) {e : Error}
    → UpdateUserEnd u d out
    → out.0 ≡ err e
    → (j : Uuid) → account j out.1 ≡ account j d
UpdateUserEnd-failed u d out (refused e) h j = refl
UpdateUserEnd-failed u d out changed h j = absurd (cc)

fresh :
    (id j : Uuid) (us : List UserRow) {r : UserRow}
    → any (λ x. x.user.id == id) us ≡ false
    → find_first (is_live_user j) us ≡ some r
    → j ≢ id
unfolding is_live_user
fresh id j [] h e = absurd (cc)
fresh id j (x ∷ us) {r = r} h e = ground (arith, fresh id j us {r = r})

added :
    (u : User) (j : Uuid) (us : List UserRow) {v : User}
    → any (λ x. x.user.id == u.id) us ≡ false
    → account_of (find_first (is_live_user j) us) ≡ some v
    → account_of (find_first (is_live_user j) (record { user = u; deleted_at = none } ∷ us))
      ≡ some v
unfolding is_live_user
added u j us new h = elim (Option-cases (find_first (is_live_user j) us)) [
  | inl e ↦ let h' = rw e at h in absurd (cc)
  | inr (r, e) ↦ let ne = fresh u.id j us new e in ground arith
]

create-keeps :
    (col : Collation) (u : User) (j : Uuid) (d : Db) {v : User}
    → account j d ≡ some v
    → account j (User.create tables col u d).1 ≡ some v
unfolding User.create ◌>>=◌ insert_user
create-keeps col u j d {v = v} h = elim (Option-cases (objection u d)) [
  | inl b ↦ rw (insert_user, b) (added u j d.users (objection-none u d b) h)
  | inr (x, b) ↦ rw (insert_user, b) h
]

-- What a call over the connection leaves behind, the call over the tables does, or nothing.
carry :
    {A : Type 0} (m : Exec World A) (spec : Exec Db A) (w : World)
    → Runs shown Any m spec
    → (P : Db → Type 0) → P w.db
    → P (spec w.db).1
    → P (m w).1.db
carry m spec w r P here there = elim (r.at w tt).1 [
  | Outcome.faulted n e v ↦ subst P (sym v) here
  | Outcome.follows e v ↦ subst P (sym v) there
]

carry_failed :
    {A : Type 0} (m : Exec World A) (spec : Exec Db A) (w : World) {e : Error}
    → Runs shown Any m spec
    → (P : Db → Type 0) → (m w).0 ≡ err e
    → P w.db
    → ((spec w.db).0 ≡ err e → P (spec w.db).1)
    → P (m w).1.db
carry_failed m spec w r P h here there = elim (r.at w tt).1 [
  | Outcome.faulted n e v ↦ subst P (sym v) here
  | Outcome.follows e v ↦ subst P (sym v) (there (sym e ∙ h))
]

scanned : (row : Option UserRow) {u : User} → scan_one row ≡ ok u → account_of row ≡ some u
unfolding scan_one
scanned none h = absurd (cc)
scanned (some r) h = cc

-- The repository of PostgreSQL behind a network is an origin that a cache may stand before.
module _ (col : Collation) where
  refines : UserRefines (user_repository remote col) (user_repository tables col) shown Any
  refines = user_repository-UserRefines remote shown Any remote-IsConnection col

  reads : UserReads (user_repository tables col)
  reads = user_repository-UserReads col

  abbrev at : Uuid → World → Option User
  at id w = account id w.db

  get_by_id-found :
      (id : Uuid) (w : World) {u : User}
      → (User.get_by_id remote col id w).0 ≡ ok u
      → account id w.db ≡ some u
  get_by_id-found id w {u = u} h = elim ((refines.get_by_id-Runs id).at w tt).1 [
    | Outcome.faulted n e v ↦ let e' : ok u ≡ err (driver n) = sym h ∙ e in absurd (cc)
    | Outcome.follows e v ↦ scanned (user_in id w.db) (rw user_get_by_id_lem at (sym e ∙ h))
  ]

  pub user_repository-IsUserStore : IsUserStore (user_repository remote col) at
  unfolding User.delete User.update_status set_status soft_delete_user ◌>>=◌
  user_repository-IsUserStore = record {
    get_by_id-found = λ id w h. get_by_id-found id w h;
    get_by_id-look = λ id j w.
        carry _ _ w (refines.get_by_id-Runs id) (λ d. account j d ≡ at j w) refl
          (ap (account j) ((reads.get_by_id-Reads id).same w.db));
    get_by_email-look = λ e j w.
        carry _ _ w (refines.get_by_email-Runs e) (λ d. account j d ≡ at j w) refl
          (ap (account j) ((reads.get_by_email-Reads e).same w.db));
    get_by_username-look = λ n j w.
        carry _ _ w (refines.get_by_username-Runs n) (λ d. account j d ≡ at j w) refl
          (ap (account j) ((reads.get_by_username-Reads n).same w.db));
    search-look = λ q limit offset j w.
        carry _ _ w (refines.search-Runs q limit offset) (λ d. account j d ≡ at j w) refl
          (ap (account j) ((reads.search-Reads q limit offset).same w.db));
    create-keeps = λ u j w {v} h.
        carry _ _ w (refines.create-Runs u) (λ d. account j d ≡ some v) h
          (create-keeps col u j w.db h);
    update-other = λ u j w ne.
        carry _ _ w (refines.update-Runs u) (λ d. account j d ≡ at j w) refl
          (UpdateUserEnd-other u w.db _ (update-UpdateUserEnd col u w.db) j ne);
    update-failed = λ u j w h.
        carry_failed _ _ w (refines.update-Runs u) (λ d. account j d ≡ at j w) h refl
          (λ e. UpdateUserEnd-failed u w.db _ (update-UpdateUserEnd col u w.db) e j);
    update_status-other = λ id st t j w ne.
        carry _ _ w (refines.update_status-Runs id st t) (λ d. account j d ≡ at j w) refl
          (ap account_of (other_id j id _ (λ r. refl) ne w.db.users));
    update_status-failed = λ id st t j w h.
        carry_failed _ _ w (refines.update_status-Runs id st t) (λ d. account j d ≡ at j w) h refl
          (λ e. absurd (cc));
    delete-other = λ id j w ne.
        carry _ _ w (refines.delete-Runs id) (λ d. account j d ≡ at j w) refl
          (ap account_of (other_id j id _ (λ r. refl) ne w.db.users));
    delete-failed = λ id j w h.
        carry_failed _ _ w (refines.delete-Runs id) (λ d. account j d ≡ at j w) h refl
          (λ e. absurd (cc));
  }
