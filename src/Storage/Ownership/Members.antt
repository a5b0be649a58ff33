-- ===== src/Storage/Ownership/Members.antt =====
-- New rows of `chat_members`, and new chats with their first members.
use mathlib.Core.Path.{subst}
use vibechat.Prelude.{
  ℕ, ◌+◌, false, ◌&&◌, ◌≡◌, refl, ap, sym, List, [], ◌∷◌, none, some, ◌==◌, find_first, any, arith,
  Bool-cases, inl, inr, if◌then◌else◌,
}
use vibechat.Exec.{Result, ok, err, pure, ◌>>◌, bind-eq-ok, state-bind-lift}
use vibechat.Domain.User.{Uuid}
use vibechat.Domain.Chat.{Chat, ChatMember, is_owner}
use vibechat.Storage.Tables.{Db, MemberRow, ChatRow}
use vibechat.Storage.Connection.{tables, atomic, keep}
use vibechat.Storage.Postgres.Chat
use vibechat.Storage.Postgres.Chat.{insert_members}
use vibechat.Storage.Sql.Chats.{
  insert_member, insert_member_or_ignore, insert_chat, chat_row, member_row, has_member, has_chat,
  has_user, is_row_of,
}
use vibechat.Storage.Ownership.{IsOwned, has_id, DistinctIds, owners_due}
use vibechat.Storage.Ownership.Rows.{owners, weight, Distinct, owners-cons}

-- A key that no row has.
absent_of_any :
    (c u : Uuid) (rs : List MemberRow)
    → any (is_row_of c u) rs ≡ false
    → find_first (is_row_of c u) rs ≡ none
absent_of_any c u [] h = refl
absent_of_any c u (r ∷ rs) h = ground (arith, absent_of_any c u rs)

insert_or_ignore-IsOwned :
    (m : ChatMember) (d : Db)
    → is_owner m.role ≡ false
    → IsOwned d
    → IsOwned (insert_member_or_ignore m d).1
unfolding insert_member_or_ignore has_member member_row weight
insert_or_ignore-IsOwned m d plain o = elim (Bool-cases (has_member m.chat_id m.user_id d)) [
  | inl e ↦ rw e o
  | inr e ↦ elim (Bool-cases (has_chat m.chat_id d && has_user m.user_id d)) [
    | inl known ↦
        rw (e, known)
          (record {
            chats_distinct = o.chats_distinct;
            members_distinct = (absent_of_any m.chat_id m.user_id d.members e, o.members_distinct);
            owned = λ k. ground (arith, o.owned k, owners-cons k (member_row m) d.members);
          })
    | inr unknown ↦ rw (e, unknown) o
  ]
]

-- AddMember
pub add_member-IsOwned :
    (m : ChatMember) (d : Db)
    → is_owner m.role ≡ false
    → IsOwned d
    → IsOwned (Chat.add_member tables m d).1
unfolding Chat.add_member
add_member-IsOwned m d plain o =
    subst IsOwned (sym (state-bind-lift _ _ d)) (insert_or_ignore-IsOwned m d plain o)

-- What new members add to the owners of `k`.
abbrev pub weights : Uuid → List ChatMember → ℕ
weights k [] = 0
weights k (m ∷ ms) = weight k m.chat_id m.role + weights k ms

-- What the loop of inserts has done if it ends well.
pub record Added (ms : List ChatMember) (d d' : Db) : Type 0 where
  pub distinct : Distinct d'.members
  pub same_chats : d'.chats ≡ d.chats
  pub counted : (k : Uuid) → owners k d'.members ≡ owners k d.members + weights k ms

insert_member_ok :
    (m : ChatMember) (d : Db)
    → (insert_member m d).0 ≡ ok tt
    → (any (is_row_of m.chat_id m.user_id) d.members ≡ false)
      × ((insert_member m d).1 ≡ record d { members = member_row m ∷ d.members })
unfolding insert_member has_member
insert_member_ok m d h = ground arith

Added-cons :
    (m : ChatMember) (ms : List ChatMember) (d d' : Db)
    → Added ms (record d { members = member_row m ∷ d.members }) d'
    → Added (m ∷ ms) d d'
unfolding member_row
Added-cons m ms d d' a = record {
  distinct = a.distinct;
  same_chats = a.same_chats;
  counted = λ k. omega (arith, a.counted k, owners-cons k (member_row m) d.members);
}

pub insert_members_ok :
    (ms : List ChatMember) (d d' : Db)
    → Distinct d.members
    → insert_members tables ms d ≡ (ok tt, d')
    → Added ms d d'
unfolding insert_members member_row pure
insert_members_ok [] d d' h e =
    subst (Added [] d) (ap (λ p. p.1) e)
      (record { distinct = h; same_chats = refl; counted = λ k. omega arith })
insert_members_ok (m ∷ ms) d d' h e =
    let (a, done, rest) = bind-eq-ok (insert_member m) _ d d' e in
    let (absent, added) = insert_member_ok m d done in
    let next : Db = record d { members = member_row m ∷ d.members } in
    let rest' : insert_members tables ms next ≡ (ok tt, d') = (rw added at rest) in
    Added-cons m ms d d'
      (insert_members_ok ms next d' (absent_of_any m.chat_id m.user_id d.members absent, h) rest')

absent_of_ids :
    (c : Uuid) (rs : List ChatRow) → any (has_id c) rs ≡ false → find_first (has_id c) rs ≡ none
absent_of_ids c [] h = refl
absent_of_ids c (r ∷ rs) h = ground (arith, absent_of_ids c rs)

pub insert_chat_ok :
    (c : Chat) (d : Db)
    → (insert_chat c d).0 ≡ ok tt
    → (any (has_id c.id) d.chats ≡ false)
      × ((insert_chat c d).1 ≡ record d { chats = chat_row c ∷ d.chats })
unfolding insert_chat has_chat
insert_chat_ok c d h = ground arith

-- The first members of a chat bring the owners that a chat of its kind has.
abbrev pub Fits : Chat → List ChatMember → Type 0
Fits c ms = (k : Uuid) → weights k ms ≡ (if c.id == k then owners_due (some (chat_row c)) else 0)

created-IsOwned :
    (c : Chat) (ms : List ChatMember) (d d' : Db)
    → Fits c ms
    → IsOwned d
    → any (has_id c.id) d.chats ≡ false
    → Added ms (record d { chats = chat_row c ∷ d.chats }) d'
    → IsOwned d'
unfolding chat_row
created-IsOwned c ms d d' fits o fresh a =
    let absent = absent_of_ids c.id d.chats fresh in
    record {
      chats_distinct = subst DistinctIds (sym a.same_chats) (absent, o.chats_distinct);
      members_distinct = a.distinct;
      owned = λ k. rw a.same_chats (ground (arith, a.counted k, fits k, o.owned k, absent));
    }

kept-IsOwned :
    (d : Db) (out : Result (Unit {0}) × Db)
    → ((d' : Db) → out ≡ (ok tt, d') → IsOwned d')
    → IsOwned d
    → IsOwned (keep d out).1
kept-IsOwned d (ok a, d') h o = h d' refl
kept-IsOwned d (err e, d') h o = o

-- CreateWithMembers
pub create_with_members-IsOwned :
    (c : Chat) (ms : List ChatMember) (d : Db)
    → Fits c ms
    → IsOwned d
    → IsOwned (Chat.create_with_members tables c ms d).1
unfolding Chat.create_with_members atomic
create_with_members-IsOwned c ms d fits o = kept-IsOwned d _ opened o
  where
    opened : (d' : Db) → (insert_chat c >> insert_members tables ms) d ≡ (ok tt, d') → IsOwned d'
    opened d' e =
        let (a, done, rest) = bind-eq-ok (insert_chat c) _ d d' e in
        let (fresh, added) = insert_chat_ok c d done in
        let next : Db = record d { chats = chat_row c ∷ d.chats } in
        let rest' : insert_members tables ms next ≡ (ok tt, d') = (rw added at rest) in
        created-IsOwned c ms d d' fits o fresh
          (insert_members_ok ms next d' o.members_distinct rest')
