-- ===== src/UseCase/Chat/Leaving.antt =====
-- internal/usecase/chat/chat.go, `LeaveChat`: who is found to take a chat over.
use vibechat.Prelude.{
  ◌≡◌, ◌≢◌, refl, sym, ◌∙◌, true, List, [], ◌∷◌, none, some, ◌==◌, find_first, find_first-passes,
  any, where_, All, All-find, All-map, arith, Option-cases, Bool-cases, inl, inr,
}
use vibechat.Domain.User.{Uuid}
use vibechat.Domain.Chat.{ChatMember}
use vibechat.Storage.Tables.{Db, MemberRow}
use vibechat.Storage.Order.{All-order_by}
use vibechat.Storage.Sql.Chats.{is_row_of, join_user, join_users, joined_before}
use vibechat.Storage.Postgres.Queries.{members_of}
use vibechat.UseCase.Chat.Service.{next_owner}
use vibechat.UseCase.Chat.NextOwner.{next_owner_lem, is_other, is_other_admin, first_of}

join_user-user :
    (d : Db) (r : MemberRow) {m : ChatMember} → join_user d r ≡ some m → m.user_id ≡ r.user_id
unfolding join_user
join_user-user d r h = ground arith

abbrev IsListed : Uuid → List MemberRow → ChatMember → Type 0
IsListed c rows m = any (is_row_of c m.user_id) rows ≡ true

any-later :
    (c u : Uuid) (r : MemberRow) (rs : List MemberRow)
    → any (is_row_of c u) rs ≡ true
    → any (is_row_of c u) (r ∷ rs) ≡ true
any-later c u r rs h = ground arith

any-now :
    (c u : Uuid) (r : MemberRow) (rs : List MemberRow)
    → (r.chat_id == c) ≡ true
    → r.user_id ≡ u
    → any (is_row_of c u) (r ∷ rs) ≡ true
unfolding is_row_of
any-now c u r rs e f = ground arith

join-none :
    (d : Db) (r : MemberRow) (rs : List MemberRow)
    → join_user d r ≡ none
    → join_users d (r ∷ rs) ≡ join_users d rs
unfolding join_users
join-none d r rs e = rw (join_users, e) refl

join-some :
    (d : Db) (r : MemberRow) (rs : List MemberRow) {m : ChatMember}
    → join_user d r ≡ some m
    → join_users d (r ∷ rs) ≡ m ∷ join_users d rs
unfolding join_users
join-some d r rs e = rw (join_users, e) refl

-- The members that a join lists have rows.
listed :
    (c : Uuid) (d : Db) (rows : List MemberRow)
    → All (IsListed c rows) (join_users d (where_ (λ r. r.chat_id == c) rows))
unfolding join_users
listed c d [] = tt
listed c d (r ∷ rs) =
    let later =
      All-map _ (λ m (h : IsListed c rs m). any-later c m.user_id r rs h) (listed c d rs) in
    elim (Bool-cases (r.chat_id == c)) [
      | inr e ↦ rw e later
      | inl e ↦ elim (Option-cases (join_user d r)) [
        | inl n ↦ rw (e, join-none d r (where_ (λ x. x.chat_id == c) rs) n) later
        | inr (m, s) ↦
            rw (e, join-some d r (where_ (λ x. x.chat_id == c) rs) s)
              (any-now c m.user_id r rs e (sym (join_user-user d r s)), later)
      ]
    ]

row_of_any :
    (c u : Uuid) (rows : List MemberRow)
    → any (is_row_of c u) rows ≡ true
    → (r : MemberRow) × (find_first (is_row_of c u) rows ≡ some r)
row_of_any c u [] h = absurd (cc)
row_of_any c u (r ∷ rs) h = elim (Bool-cases (is_row_of c u r)) [
  | inl e ↦ (r, rw e refl)
  | inr e ↦ let (x, f) = row_of_any c u rs (rw e at h) in (x, rw e f)
]

-- Somebody else who is in the list.
abbrev IsSuccessor : Uuid → Uuid → List MemberRow → ChatMember → Type 0
IsSuccessor c u rows m = (u ≢ m.user_id) × (any (is_row_of c m.user_id) rows ≡ true)

first_of-IsSuccessor :
    (c u : Uuid) (d : Db) (ms : List ChatMember) {m : ChatMember}
    → All (IsListed c d.members) ms
    → first_of (find_first (is_other_admin u) ms) (find_first (is_other u) ms) ≡ some m
    → IsSuccessor c u d.members m
first_of-IsSuccessor c u d ms {m} a h = elim (Option-cases (find_first (is_other_admin u) ms)) [
  | inl e ↦
      let f : find_first (is_other u) ms ≡ some m = (rw e at h) in
      (other m (find_first-passes _ ms f), All-find (IsListed c d.members) _ ms a f)
  | inr (x, e) ↦
      let f : find_first (is_other_admin u) ms ≡ some m = (e ∙ (rw e at h)) in
      (other_admin m (find_first-passes _ ms f), All-find (IsListed c d.members) _ ms a f)
]
  where
    other : (m : ChatMember) → is_other u m ≡ true → u ≢ m.user_id
    other m h = ground arith

    other_admin : (m : ChatMember) → is_other_admin u m ≡ true → u ≢ m.user_id
    other_admin m h = ground arith

-- Who takes a chat over is another user and has a row in it.
pub next_owner-row :
    (c u : Uuid) (d : Db) {m : ChatMember}
    → next_owner (members_of c d) u ≡ some m
    → (u ≢ m.user_id) × ((r : MemberRow) × (find_first (is_row_of c m.user_id) d.members ≡ some r))
next_owner-row c u d h =
    let a = All-order_by joined_before (IsListed c d.members) _ (listed c d d.members) in
    let (ne, there) =
      first_of-IsSuccessor c u d (members_of c d) a (sym (next_owner_lem (members_of c d) u) ∙ h) in
    (ne, row_of_any c _ d.members there)
