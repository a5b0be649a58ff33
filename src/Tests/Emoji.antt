-- ===== src/Tests/Emoji.antt =====
-- The theorems about the reactions of MySQL: Bob reacts to a message of Ann. The collation
-- utf8mb4_unicode_ci gives all characters of four bytes one weight.
use Prim.Native.String.{len, count}
use vibechat.Prelude.{
  ◌≡◌, refl, arith, String, str_eq, Bool, true, not, ◌||◌, ◌&&◌, ◌==◌, none, [], ◌∷◌, any,
  if◌then◌else◌,
}
use vibechat.Exec.{ok, ◌>>◌}
use vibechat.Domain.Message.{text, Reaction}
use vibechat.Storage.Tables.{Db, MessageRow}
use vibechat.Storage.Connection.{tables}
use vibechat.Storage.Sql.Chats.{has_user}
use vibechat.Storage.Sql.Messages.{has_message}
use vibechat.Storage.Postgres.Message as Postgres
use vibechat.Storage.Mysql.Users.{Collation}
use vibechat.Storage.Mysql.Messages.{is_reaction}
use vibechat.Storage.Mysql.Message
use vibechat.Storage.Mysql.Reactions
use vibechat.Tests.Data.{db}
use vibechat.Tests.Data

abbrev equal_weight : String → String → Bool
equal_weight s t = str_eq s t || (len s == 4 && count s == 1) && (len t == 4 && count t == 1)

abbrev unicode_ci : Collation
unicode_ci = record { equal = equal_weight; like = λ s t. true; before = λ s t. true }

abbrev greeting : MessageRow
greeting = record {
  id = 20;
  chat_id = 10;
  sender_id = 1;
  content = "hello";
  type = text;
  reply_to_id = none;
  edited_at = none;
  deleted_at = none;
  created_at = 8;
  updated_at = 8;
}

abbrev greeted : Db
greeted = record db { messages = greeting ∷ [] }

abbrev thumb : Reaction
thumb = record { message_id = 20; user_id = 2; emoji = "👍"; created_at = 9; user = none }

add_reaction_differs_example : Message.add_reaction tables unicode_ci thumb greeted ≡ (
    if any (is_reaction equal_weight 20 2 "👍") greeted.reactions
      || not (has_message 20 greeted && has_user 2 greeted)
    then (ok tt, greeted)
    else Postgres.add_reaction tables Data.col thumb greeted)
add_reaction_differs_example =
    Reactions.add_reaction_differs unicode_ci Data.col thumb greeted (λ s t e. ground arith)
      (omega arith) (omega arith)

equal_emoji_lost_example :
    ((Message.add_reaction tables unicode_ci thumb
          >> Message.add_reaction tables unicode_ci (record thumb { emoji = "🎉" }))
        greeted
      ≡ Message.add_reaction tables unicode_ci thumb greeted)
    × ((Message.add_reaction tables unicode_ci thumb
            >> Message.remove_reaction tables unicode_ci 20 2 "🎉")
          greeted
        ≡ Message.remove_reaction tables unicode_ci 20 2 "🎉" greeted)
unfolding is_reaction has_message has_user
equal_emoji_lost_example =
    Reactions.equal_emoji_lost unicode_ci thumb "🎉" greeted (omega arith) (omega arith)
      (omega arith) (omega arith) refl refl refl refl
