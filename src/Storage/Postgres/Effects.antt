-- ===== src/Storage/Postgres/Effects.antt =====
-- internal/infrastructure/storage/postgres/chat.go: what the writes on a row that is there return
-- and leave behind.
use vibechat.Prelude.{
  ◌≡◌, refl, Bool, false, not, List, [], ◌∷◌, some, ◌==◌, find_first, count_where, where_,
  update_where, arith,
}
use vibechat.Exec.{ok, ◌>>=◌}
use vibechat.Domain.User.{Uuid}
use vibechat.Domain.Chat.{MemberRole}
use vibechat.Storage.Tables.{Db, MemberRow}
use vibechat.Storage.Connection.{tables}
use vibechat.Storage.Postgres.Chat
use vibechat.Storage.Postgres.Chat.{affected}
use vibechat.Storage.Sql.Chats.{is_row_of, delete_member, set_role}

count-found {ℓ} :
    {A : Type ℓ} (p : A → Bool) (xs : List A) {x : A}
    → find_first p xs ≡ some x
    → (count_where p xs == 0) ≡ false
count-found p [] h = absurd (cc)
count-found p (y ∷ ys) {x = x} h = ground (arith, count-found p ys {x = x})

module _ (c u : Uuid) (d : Db) {r : MemberRow}
    (found : find_first (is_row_of c u) d.members ≡ some r) where
  pub remove_member_found :
      Chat.remove_member tables c u d
      ≡ (ok tt, record d { members = where_ (λ x. not (is_row_of c u x)) d.members })
  unfolding Chat.remove_member delete_member affected ◌>>=◌
  remove_member_found = rw (count-found (is_row_of c u) d.members found) refl

  pub update_member_role_found :
      (new : MemberRole)
      → Chat.update_member_role tables c u new d ≡ (
        ok tt,
        record d {
          members = update_where (is_row_of c u) (λ x. record x { role = new }) d.members;
        },
      )
  unfolding Chat.update_member_role set_role affected ◌>>=◌
  update_member_role_found new = rw (count-found (is_row_of c u) d.members found) refl
