-- ===== src/Storage/Ownership/Chats.antt =====
-- The writes on `chats` leave the identifiers and the kinds as they are.
use mathlib.Core.Path.{subst}
use vibechat.Prelude.{
  Bool, not, ◌&&◌, ◌≡◌, refl, sym, List, [], ◌∷◌, none, find_first, update_where, any, arith,
  Bool-cases, inl, inr,
}
use vibechat.Exec.{state-bind-lift}
use vibechat.Domain.User.{Uuid}
use vibechat.Domain.Chat.{Chat}
use vibechat.Storage.Tables.{Db, ChatRow}
use vibechat.Storage.Connection.{tables}
use vibechat.Storage.Postgres.Chat
use vibechat.Storage.Sql.Chats.{
  update_chat, soft_delete_chat, is_live_chat, set_chat, chat_checks, chat_fits,
}
use vibechat.Storage.Ownership.{IsOwned, has_id, DistinctIds, owners_due}

-- A change of rows that keeps what the owners depend on.
record KeepsKind (f : ChatRow → ChatRow) : Type 0 where
  same_id : (r : ChatRow) → (f r).id ≡ r.id
  same_type : (r : ChatRow) → (f r).type ≡ r.type

module _ (p : ChatRow → Bool) (f : ChatRow → ChatRow) (keeps : KeepsKind f) where
  absent_update :
      (k : Uuid) (rs : List ChatRow)
      → find_first (has_id k) rs ≡ none
      → find_first (has_id k) (update_where p f rs) ≡ none
  absent_update k [] h = refl
  absent_update k (r ∷ rs) h = ground (arith, keeps.same_id r, absent_update k rs)

  DistinctIds-update : (rs : List ChatRow) → DistinctIds rs → DistinctIds (update_where p f rs)
  DistinctIds-update [] h = tt
  DistinctIds-update (r ∷ rs) h = elim (Bool-cases (p r)) [
    | inl e ↦ rw (e, keeps.same_id r) (absent_update r.id rs h.0, DistinctIds-update rs h.1)
    | inr e ↦ rw e (absent_update r.id rs h.0, DistinctIds-update rs h.1)
  ]

  owners_due-update :
      (k : Uuid) (rs : List ChatRow)
      → owners_due (find_first (has_id k) (update_where p f rs))
        ≡ owners_due (find_first (has_id k) rs)
  owners_due-update k [] = refl
  owners_due-update k (r ∷ rs) =
      ground (arith, keeps.same_id r, keeps.same_type r, owners_due-update k rs)

  chats-IsOwned : (d : Db) → IsOwned d → IsOwned (record d { chats = update_where p f d.chats })
  chats-IsOwned d o = record {
    chats_distinct = DistinctIds-update d.chats o.chats_distinct;
    members_distinct = o.members_distinct;
    owned = λ k. rw owners_due-update (o.owned k);
  }

update_chat-IsOwned : (c : Chat) (d : Db) → IsOwned d → IsOwned (update_chat c d).1
unfolding update_chat set_chat
update_chat-IsOwned c d o =
    elim (Bool-cases (any (λ r. is_live_chat c.id r && not (chat_fits (set_chat c r))) d.chats)) [
      | inl f ↦ rw f o
      | inr f ↦
          elim (Bool-cases
            (any (λ r. is_live_chat c.id r && not (chat_checks (set_chat c r))) d.chats)) [
              | inl e ↦ rw (f, e) o
              | inr e ↦
                  rw (f, e)
                    (chats-IsOwned (is_live_chat c.id) (set_chat c)
                      (record { same_id = λ r. refl; same_type = λ r. refl }) d o)
            ]
    ]

-- Update
pub update-IsOwned : (c : Chat) (d : Db) → IsOwned d → IsOwned (Chat.update tables c d).1
unfolding Chat.update
update-IsOwned c d o = subst IsOwned (sym (state-bind-lift _ _ d)) (update_chat-IsOwned c d o)

-- Delete
pub delete-IsOwned : (c : Uuid) (d : Db) → IsOwned d → IsOwned (Chat.delete tables c d).1
unfolding Chat.delete soft_delete_chat
delete-IsOwned c d o =
    subst IsOwned (sym (state-bind-lift _ _ d))
      (chats-IsOwned (is_live_chat c) _ (record { same_id = λ r. refl; same_type = λ r. refl }) d o)
