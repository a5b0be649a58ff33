-- ===== src/Storage/Ownership.antt =====
-- Who owns a chat: the invariant of `chats` and `chat_members` on which the roles rest.
pub mod Rows
pub mod Keys
pub mod Writes
pub mod Members
pub mod Chats
use vibechat.Prelude.{
  ℕ, Bool, true, false, ◌≡◌, ◌&&◌, List, [], ◌∷◌, Option, none, some, ◌==◌, find_first, count_where,
}
use vibechat.Domain.User.{Uuid}
use vibechat.Domain.Chat.{ChatType, direct, group, is_owner}
use vibechat.Storage.Tables.{Db, ChatRow, MemberRow}
use vibechat.Storage.Ownership.Rows.{owners, Distinct}

abbrev pub has_id : Uuid → ChatRow → Bool
has_id c r = r.id == c

-- The identifiers of chats are distinct, those of deleted chats included.
abbrev pub DistinctIds : List ChatRow → Type 0
DistinctIds [] = Unit
DistinctIds (r ∷ rs) = (find_first (has_id r.id) rs ≡ none) × DistinctIds rs

abbrev pub owners_due : Option ChatRow → ℕ
owners_due none = 0
owners_due (some r) = elim r.type [ direct ↦ 0 | group ↦ 1 ]

-- Every group has exactly one owner, and a direct chat or an unknown one has none.
pub record IsOwned (d : Db) : Type 0 where
  pub chats_distinct : DistinctIds d.chats
  pub members_distinct : Distinct d.members
  pub owned : (c : Uuid) → owners c d.members ≡ owners_due (find_first (has_id c) d.chats)
