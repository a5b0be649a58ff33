-- ===== src/UseCase/Chat/Deleted.antt =====
-- internal/usecase/chat/chat.go, `GetChat` and `GetMembers`, before and after a chat is deleted:
-- `assertMember` asks for a row of `chat_members` only.
use vibechat.Prelude.{
  ◌≡◌, refl, arith, Bool, true, false, List, [], ◌∷◌, none, some, find_first, update_where,
}
use vibechat.Exec.{Result, ok, err, guard, ◌>>=◌, ◌>>◌, state-bind-lift}
use vibechat.Domain.Errors.{chat_not_found, not_chat_member}
use vibechat.Domain.User.{Uuid, Time}
use vibechat.Storage.Tables.{Db, ChatRow}
use vibechat.Storage.Connection.{tables}
use vibechat.Storage.Postgres.Chat
use vibechat.Storage.Postgres.Chat.{chat_repository, found_chat}
use vibechat.Storage.Postgres.User.{user_repository}
use vibechat.Storage.Postgres.Queries.{seek, chat_in, members_of, queries}
use vibechat.Storage.Sql.Chats.{has_member, is_live_chat, soft_delete_chat, join_users}
use vibechat.Storage.Sql.Users.{Collation}
use vibechat.UseCase.Chat.Service.{get_chat, get_members, assert_member}

-- What a member of a chat may read.
abbrev pub for_member : {A : Type 0} → Bool → Result A → Result A
for_member true r = r
for_member false r = err not_chat_member

read_flow :
    {A B : Type 0} (joined : Db → Bool) (check : A → Result B) (query : Db → A) (d : Db)
    → (do
      do b ← seek (λ b. ok b) joined; guard b not_chat_member
      seek check query)
        d
      ≡ (for_member (joined d) (check (query d)), d)
unfolding ◌>>=◌ guard
read_flow joined check query d = ground arith

module _ (col : Collation) (c u : Uuid) where
  get_chat_exact :
      (d : Db)
      → get_chat (chat_repository tables) (user_repository tables col) c u d
        ≡ (for_member (has_member c u d) (found_chat (chat_in c d)), d)
  unfolding get_chat assert_member
  get_chat_exact d = simp queries (read_flow (has_member c u) found_chat (chat_in c) d)

  get_members_exact :
      (d : Db)
      → get_members (chat_repository tables) (user_repository tables col) c u d
        ≡ (for_member (has_member c u d) (ok (members_of c d)), d)
  unfolding get_members assert_member
  get_members_exact d = simp queries (read_flow (has_member c u) (λ ms. ok ms) (members_of c) d)

abbrev mark_deleted : Time → ChatRow → ChatRow
mark_deleted now r = record r { deleted_at = some now }

find-deleted :
    (c : Uuid) (now : Time) (rs : List ChatRow)
    → find_first (is_live_chat c) (update_where (is_live_chat c) (mark_deleted now) rs) ≡ none
unfolding is_live_chat
find-deleted c now [] = refl
find-deleted c now (r ∷ rs) = ground (arith, find-deleted c now rs)

state-delete :
    (c : Uuid) (d : Db)
    → (Chat.delete tables c d).1
      ≡ record d { chats = update_where (is_live_chat c) (mark_deleted d.now) d.chats }
unfolding Chat.delete soft_delete_chat
state-delete c d = state-bind-lift _ _ d

-- Once a chat is deleted, its members are told by GetChat that there is no such chat, and yet
-- GetMembers lists the same people as before. Others are refused by both.
pub get_members_of_deleted :
    (col : Collation) (c u : Uuid) (d : Db)
    → let d' = (Chat.delete tables c d).1 in
      ((get_chat (chat_repository tables) (user_repository tables col) c u d').0
        ≡ for_member (has_member c u d) (err chat_not_found))
      × ((get_members (chat_repository tables) (user_repository tables col) c u d').0
          ≡ for_member (has_member c u d) (ok (members_of c d)))
unfolding has_member found_chat join_users
get_members_of_deleted col c u d =
    rw (get_chat_exact, get_members_exact, state-delete, find-deleted) (refl, refl)
