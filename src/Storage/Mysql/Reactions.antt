-- ===== src/Storage/Mysql/Reactions.antt =====
-- internal/infrastructure/storage/mysql/message.go: reactions, which MySQL tells apart by the collation
-- of the column, where PostgreSQL compares their texts.
use Prim.Native.String.{count}
use Prim.Native.String.count as Count
use vibechat.Prelude.{
  ◌≡◌, refl, ap, ℕ, zero, suc, ◌≤◌, String, str_eq, Bool, true, false, not, ◌&&◌, ◌||◌, List, [],
  ◌∷◌, arith, any, if◌then◌else◌,
}
use vibechat.Exec.{ok, ◌>>=◌, ◌>>◌}
use vibechat.Domain.User.{Uuid}
use vibechat.Domain.Message.{Reaction}
use vibechat.Storage.Tables.{Db, ReactionRow}
use vibechat.Storage.Connection.{tables}
use vibechat.Storage.Sql.Chats.{has_user}
use vibechat.Storage.Sql.Messages as Sql
use vibechat.Storage.Sql.Messages.{has_message}
use vibechat.Storage.Mysql.Users.{Collation}
use vibechat.Storage.Mysql.Messages
use vibechat.Storage.Mysql.Messages.{cut, reaction_row, insert_ignore_reaction, delete_reaction}
use vibechat.Storage.Mysql.Message
use vibechat.Storage.Postgres.Message as Postgres
use vibechat.Storage.Sql.Users as Users

count_cons : (c : _) (s : String) → count (String.◌∷◌ c s) ≡ suc (count s)
count_cons c s = λ i. Count.cons c s i

cut-fits : (n : ℕ) (s : String) → count s ≤ n → cut n s ≡ s
unfolding cut
cut-fits zero String.[] h = refl
cut-fits (suc n) String.[] h = refl
cut-fits zero (String.◌∷◌ c s) h = absurd (omega (arith, count_cons c s))
cut-fits (suc n) (String.◌∷◌ c s) h =
    ap (String.◌∷◌ c) (cut-fits n s (omega (arith, count_cons c s)))

-- An emoji of 1 to 10 characters is put as it is, and not at all where an equal one is there, or
-- the message or the account is missing.
insert_ignore_reaction_lem :
    (equal : String → String → Bool) (x : Reaction) (d : Db)
    → 1 ≤ count x.emoji
    → count x.emoji ≤ 10
    → insert_ignore_reaction equal x d ≡ (
        if any (Messages.is_reaction equal x.message_id x.user_id x.emoji) d.reactions
          || not (has_message x.message_id d && has_user x.user_id d)
        then (ok tt, d)
        else (
          ok tt,
          record d {
            reactions =
                record {
                  message_id = x.message_id;
                  user_id = x.user_id;
                  emoji = x.emoji;
                  created_at = x.created_at;
                }
                ∷ d.reactions;
          },
        ))
unfolding insert_ignore_reaction
insert_ignore_reaction_lem equal x d l h = rw (cut-fits 10 x.emoji h) (ground arith)

any-exact :
    (equal : String → String → Bool)
    (reflexive : (s t : String) → str_eq s t ≡ true → equal s t ≡ true) (id u : Uuid) (e : String)
    (rs : List ReactionRow)
    → any (Messages.is_reaction equal id u e) rs ≡ false
    → any (Sql.is_reaction id u e) rs ≡ false
unfolding Messages.is_reaction Sql.is_reaction
any-exact equal reflexive id u e [] h = refl
any-exact equal reflexive id u e (r ∷ rs) h =
    ground (arith, any-exact equal reflexive id u e rs, reflexive r.emoji e)

-- An emoji of 1 to 10 characters, with a collation that takes a text for equal to itself: where the
-- user has reacted to the message with an emoji that the collation takes for equal, or the message
-- or the account is unknown, AddReaction of MySQL returns no error and adds nothing, and else it does
-- what that of PostgreSQL does.
pub add_reaction_differs :
    (col : Collation) (pcol : Users.Collation) (x : Reaction) (d : Db)
    → ((s t : String) → str_eq s t ≡ true → col.equal s t ≡ true)
    → 1 ≤ count x.emoji
    → count x.emoji ≤ 10
    → Message.add_reaction tables col x d ≡ (
        if any (Messages.is_reaction col.equal x.message_id x.user_id x.emoji) d.reactions
          || not (has_message x.message_id d && has_user x.user_id d)
        then (ok tt, d)
        else Postgres.add_reaction tables pcol x d)
unfolding Message.add_reaction Postgres.add_reaction Sql.insert_reaction
add_reaction_differs col pcol x d reflexive l h =
    rw (insert_ignore_reaction_lem col.equal x d l h)
      (ground (arith, any-exact col.equal reflexive x.message_id x.user_id x.emoji d.reactions))

dropped :
    (equal : String → String → Bool) (x : Reaction) (d : Db)
    → 1 ≤ count x.emoji
    → count x.emoji ≤ 10
    → any (Messages.is_reaction equal x.message_id x.user_id x.emoji) d.reactions ≡ true
    → insert_ignore_reaction equal x d ≡ (ok tt, d)
dropped equal x d l h e = rw (insert_ignore_reaction_lem equal x d l h, e) refl

-- Two emojis of 1 to 10 characters that the collation takes for equal, and a message that the user has
-- not reacted to with one of them: of two reactions with the one and then with the other, MySQL keeps
-- the first and drops the second without an error, and removing the second then removes the first.
pub equal_emoji_lost :
    (col : Collation) (x : Reaction) (other : String) (d : Db)
    → 1 ≤ count x.emoji
    → count x.emoji ≤ 10
    → 1 ≤ count other
    → count other ≤ 10
    → col.equal x.emoji other ≡ true
    → any (Messages.is_reaction col.equal x.message_id x.user_id x.emoji) d.reactions ≡ false
    → has_message x.message_id d ≡ true
    → has_user x.user_id d ≡ true
    → ((Message.add_reaction tables col x
            >> Message.add_reaction tables col (record x { emoji = other }))
          d
        ≡ Message.add_reaction tables col x d)
      × ((Message.add_reaction tables col x
              >> Message.remove_reaction tables col x.message_id x.user_id other)
            d
          ≡ Message.remove_reaction tables col x.message_id x.user_id other d)
unfolding Message.add_reaction Message.remove_reaction ◌>>=◌ delete_reaction Messages.is_reaction
equal_emoji_lost col x other d l h l' h' e n m u = (
  rw (insert_ignore_reaction_lem col.equal x d l h, n, m, u)
      (dropped col.equal (record x { emoji = other }) _ l' h' (ground arith)),
  rw (insert_ignore_reaction_lem col.equal x d l h, n, m, u) (ground arith),
)
