-- ===== src/Storage/Postgres/Queries.antt =====
-- The reads of the repositories over the bare tables, as one query and one check each.
use mathlib.Core.Path.{fun_ext}
use vibechat.Prelude.{◌≡◌, refl, Option, none, some, arith, find_first, where_, List, ◌==◌}
use vibechat.Exec.{Result, ok, Exec, ◌>>=◌}
use vibechat.Domain.Errors.{not_chat_member}
use vibechat.Domain.User.{Uuid}
use vibechat.Domain.Chat.{ChatMember}
use vibechat.Storage.Tables.{Db, ChatRow, UserRow}
use vibechat.Storage.Order.{order_by}
use vibechat.Storage.Connection.{tables}
use vibechat.Storage.Postgres.Chat
use vibechat.Storage.Postgres.Chat.{found, found_chat}
use vibechat.Storage.Postgres.User
use vibechat.Storage.Postgres.User.{scan_one}
use vibechat.Storage.Sql.Chats.{
  is_live_chat, is_live_user, is_row_of, join_user, has_member, select_chat, select_member,
  select_members, exists_member, joined_before, join_users,
}
use vibechat.Storage.Sql.Users.{Collation, select_user}

-- A query that a check follows.
abbrev pub seek : {A B : Type 0} → (A → Result B) → (Db → A) → Exec Db B
seek check q d = (check (q d), d)

abbrev pub chat_in : Uuid → Db → Option ChatRow
chat_in c d = find_first (is_live_chat c) d.chats

abbrev pub member_in : Uuid → Uuid → Db → Option ChatMember
member_in c u d = elim (find_first (is_row_of c u) d.members) [
  | none ↦ none
  | some r ↦ join_user d r
]

abbrev pub user_in : Uuid → Db → Option UserRow
user_in u d = find_first (is_live_user u) d.users

abbrev pub members_of : Uuid → Db → List ChatMember
members_of c d = order_by joined_before (join_users d (where_ (λ r. r.chat_id == c) d.members))

pub chat_get_by_id_lem : (c : Uuid) → Chat.get_by_id tables c ≡ seek found_chat (chat_in c)
unfolding Chat.get_by_id select_chat ◌>>=◌
chat_get_by_id_lem c = refl

pub get_member_lem :
    (c u : Uuid) → Chat.get_member tables c u ≡ seek (found not_chat_member) (member_in c u)
unfolding Chat.get_member select_member ◌>>=◌
get_member_lem c u = fun_ext λ d. ground arith

pub get_members_lem : (c : Uuid) → Chat.get_members tables c ≡ seek (λ ms. ok ms) (members_of c)
unfolding Chat.get_members select_members
get_members_lem c = refl

pub is_member_lem : (c u : Uuid) → Chat.is_member tables c u ≡ seek (λ b. ok b) (has_member c u)
unfolding Chat.is_member exists_member
is_member_lem c u = refl

pub user_get_by_id_lem :
    (col : Collation) (u : Uuid) → User.get_by_id tables col u ≡ seek scan_one (user_in u)
unfolding User.get_by_id select_user ◌>>=◌
user_get_by_id_lem col u = refl

pub ruleset queries =
    (chat_get_by_id_lem, get_member_lem, get_members_lem, is_member_lem, user_get_by_id_lem)
