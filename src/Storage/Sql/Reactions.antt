-- ===== src/Storage/Sql/Reactions.antt =====
-- internal/infrastructure/storage/postgres/message.go: the queries on `message_reactions`.
use vibechat.Prelude.{
  Bool, List, [], ◌∷◌, ◌++◌, Option, none, some, ◌==◌, leb, if◌then◌else◌, any, find_first, where_,
}
use vibechat.Exec.{ok, Exec}
use vibechat.Domain.User.{Uuid, User, unset, zero_time}
use vibechat.Domain.Message.{Reaction}
use vibechat.Storage.Tables.{ReactionRow, Db}
use vibechat.Storage.Order.{order_by}
use vibechat.Storage.Sql.Chats.{is_live_user}
use vibechat.Storage.Sql.Users.{Collation}

-- An account of which only the identifier, the name and the picture are read.
unfoldable pub brief_user : User → User
brief_user u = record {
  id = u.id;
  username = u.username;
  email = "";
  password_hash = "";
  avatar_url = u.avatar_url;
  bio = "";
  status = unset;
  last_seen = zero_time;
  created_at = zero_time;
  updated_at = zero_time;
}

-- `JOIN users u ON u.id = mr.user_id AND u.deleted_at IS NULL`
unfoldable pub join_reactor : Db → ReactionRow → Option Reaction
unfolding is_live_user brief_user
join_reactor d r = elim (find_first (is_live_user r.user_id) d.users) [
  | none ↦ none
  | some u ↦ some (record {
    message_id = r.message_id;
    user_id = r.user_id;
    emoji = r.emoji;
    created_at = r.created_at;
    user = some (brief_user u.user);
  })
]

unfoldable pub join_reactors : Db → List ReactionRow → List Reaction
unfolding join_reactor
join_reactors d [] = []
join_reactors d (r ∷ rs) =
    let rest = join_reactors d rs in elim (join_reactor d r) [ none ↦ rest | some x ↦ x ∷ rest ]

-- `ORDER BY mr.created_at, mr.user_id, mr.emoji`
unfoldable pub reacted_before : Collation → Reaction → Reaction → Bool
reacted_before c a b =
    if a.created_at == b.created_at
    then (if a.user_id == b.user_id then c.before a.emoji b.emoji else leb a.user_id b.user_id)
    else leb a.created_at b.created_at

unfoldable pub reactions_of : Collation → Db → Uuid → List Reaction
unfolding join_reactors reacted_before order_by
reactions_of c d message_id =
    order_by (reacted_before c)
      (join_reactors d (where_ (λ r. r.message_id == message_id) d.reactions))

unfoldable pub select_reactions : Collation → Uuid → Exec Db (List Reaction)
unfolding reactions_of
select_reactions c message_id d = (ok (reactions_of c d message_id), d)

-- `mr.message_id = ANY($1)` with `mr.message_id` first in the order.
unfoldable pub select_reactions_any : Collation → List Uuid → Exec Db (List Reaction)
unfolding join_reactors reacted_before order_by
select_reactions_any c message_ids d =
    let rows = where_ (λ r. any (λ id. r.message_id == id) message_ids) d.reactions in
    let before : Reaction → Reaction → Bool = (λ a b.
      if a.message_id == b.message_id
      then reacted_before c a b
      else leb a.message_id b.message_id) in
    (ok (order_by before (join_reactors d rows)), d)

-- `result[rx.MessageID] = append(result[rx.MessageID], &rx)`
unfoldable pub append_to : Reaction → List (Uuid × List Reaction) → List (Uuid × List Reaction)
append_to x [] = (x.message_id, x ∷ []) ∷ []
append_to x ((id, xs) ∷ rest) =
    let later = append_to x rest in
    if id == x.message_id then (id, xs ++ (x ∷ [])) ∷ rest else (id, xs) ∷ later

unfoldable pub group_reactions :
    List (Uuid × List Reaction) → List Reaction → List (Uuid × List Reaction)
unfolding append_to
group_reactions result [] = result
group_reactions result (x ∷ xs) = group_reactions (append_to x result) xs
