-- ===== src/UseCase/Message/Exact.antt =====
-- internal/usecase/message/message.go over the bare tables: each operation decides by rules over
-- the message and the membership of the caller, and then makes one write.
use mathlib.Core.Path.{fun_ext}
use vibechat.Prelude.{
  ◌≡◌, refl, arith, Bool, true, false, not, ◌==◌, Option, none, some, is_some, find_first,
  if◌then◌else◌,
}
use vibechat.Exec.{Result, ok, err, Exec, lift, pure, guard, ◌>>=◌, ◌>>◌}
use vibechat.Domain.Errors.{message_not_found, message_deleted, not_message_author, not_chat_member}
use vibechat.Domain.User.{Uuid, Time}
use vibechat.Domain.Message.{Message, is_deleted, is_authored_by}
use vibechat.Storage.Tables.{Db, MessageRow}
use vibechat.Storage.Connection.{tables}
use vibechat.Storage.Postgres.Chat.{chat_repository}
use vibechat.Storage.Postgres.Message
use vibechat.Storage.Postgres.Message.{message_repository, found_message}
use vibechat.Storage.Postgres.Queries.{seek, is_member_lem}
use vibechat.Storage.Sql.Chats.{has_member}
use vibechat.Storage.Sql.Messages.{scan_message, select_message}
use vibechat.Storage.Sql.Users.{Collation}
use vibechat.UseCase.Chat.Policy.{settle, ◌▸◌}
use vibechat.UseCase.Message.Dto.{
  SendInput, EditInput, ReactInput, validate_send, validate_edit, validate_react,
}
use vibechat.UseCase.Message.Service.{
  send, edit, delete, add_reaction, remove_reaction, assert_member, check_reply, new_message,
  edited_message, new_reaction,
}

abbrev pub message_in : Uuid → Db → Option MessageRow
message_in id d = find_first (λ (r : MessageRow). r.id == id) d.messages

pub message_get_by_id_lem :
    (col : Collation) (id : Uuid)
    → Message.get_by_id tables col id ≡ seek found_message (message_in id)
unfolding Message.get_by_id select_message ◌>>=◌
message_get_by_id_lem col id = refl

pub ruleset message_queries = (message_get_by_id_lem, is_member_lem)

abbrev pub may_belong : Bool → Result (Unit {0})
may_belong true = ok tt
may_belong false = err not_chat_member

-- Only the author changes a message, as long as it is not deleted and the author is a member of
-- its chat.
abbrev pub may_change : Uuid → (Uuid → Bool) → Option MessageRow → Result (Unit {0})
may_change u joined none = err message_not_found
may_change u joined (some r) =
    if is_some r.deleted_at
    then err message_deleted
    else if r.sender_id == u
    then may_belong (joined r.chat_id)
    else err not_message_author

-- Any member of the chat reacts to a message that is not deleted.
abbrev pub may_react : (Uuid → Bool) → Option MessageRow → Result (Unit {0})
may_react joined none = err message_not_found
may_react joined (some r) =
    if is_some r.deleted_at then err message_deleted else may_belong (joined r.chat_id)

-- A reply is to a message of the same chat, deleted or not.
abbrev pub may_reply : Uuid → (Uuid → Option MessageRow) → Option Uuid → Result (Unit {0})
may_reply c find none = ok tt
may_reply c find (some id) = elim (find id) [
  | none ↦ err message_not_found
  | some r ↦ if r.chat_id == c then ok tt else err message_not_found
]

abbrev pub with_message : (Message → Exec Db Message) → Option MessageRow → Exec Db Message
with_message write none d = (err message_not_found, d)
with_message write (some r) d = write (scan_message r) d

edit_flow :
    (valid : Result (Unit {0})) (row : Db → Option MessageRow) (u : Uuid)
    (joined : Uuid → Db → Bool) (write : Message → Exec Db Message) (d : Db)
    → (do
      lift valid
      m ← seek found_message row
      guard (not (is_deleted m)) message_deleted
      guard (is_authored_by m u) not_message_author
      do b ← seek (λ b. ok b) (joined m.chat_id); guard b not_chat_member
      write m)
        d
      ≡ settle (valid ▸ may_change u (λ c. joined c d) (row d)) (with_message write (row d)) d
unfolding settle ◌>>=◌ found_message guard is_deleted is_authored_by scan_message
edit_flow valid row u joined write d = ground arith

delete_flow :
    (row : Db → Option MessageRow) (u : Uuid) (joined : Uuid → Db → Bool)
    (write : Exec Db (Unit {0})) (d : Db)
    → (do
      m ← seek found_message row
      guard (not (is_deleted m)) message_deleted
      guard (is_authored_by m u) not_message_author
      do b ← seek (λ b. ok b) (joined m.chat_id); guard b not_chat_member
      write)
        d
      ≡ settle (may_change u (λ c. joined c d) (row d)) write d
unfolding settle ◌>>=◌ found_message guard is_deleted is_authored_by scan_message
delete_flow row u joined write d = ground arith

react_flow :
    (valid : Result (Unit {0})) (row : Db → Option MessageRow) (joined : Uuid → Db → Bool)
    (write : Exec Db (Unit {0})) (d : Db)
    → (do
      lift valid
      m ← seek found_message row
      guard (not (is_deleted m)) message_deleted
      do b ← seek (λ b. ok b) (joined m.chat_id); guard b not_chat_member
      write)
        d
      ≡ settle (valid ▸ may_react (λ c. joined c d) (row d)) write d
unfolding settle ◌>>=◌ found_message guard is_deleted scan_message
react_flow valid row joined write d = ground arith

module _ (col : Collation) (id u : Uuid) where
  -- Edit over the bare tables is decided by the rules: a valid input, a message that is there and
  -- not deleted, the caller its author and still a member of its chat. Then the message that was
  -- read is written with the new content, and else nothing changes.
  pub edit_exact :
      (i : EditInput) (now : Time) (d : Db)
      → edit (message_repository tables col) (chat_repository tables) id u i now d
        ≡ settle
            (validate_edit i ▸ may_change u (λ c. has_member c u d) (message_in id d))
            (with_message
              (λ m. do
                Message.update tables col (edited_message m i.content now)
                pure (edited_message m i.content now))
              (message_in id d))
            d
  unfolding edit assert_member
  edit_exact i now d =
      simp message_queries (edit_flow (validate_edit i) (message_in id) u (λ c. has_member c u) _ d)

  -- Delete over the bare tables is decided by the rules of Edit, and then the message is marked as
  -- deleted.
  pub delete_exact :
      (d : Db)
      → delete (message_repository tables col) (chat_repository tables) id u d
        ≡ settle
            (may_change u (λ c. has_member c u d) (message_in id d))
            (Message.delete tables col id)
            d
  unfolding delete assert_member
  delete_exact d = simp message_queries (delete_flow (message_in id) u (λ c. has_member c u) _ d)

  -- AddReaction over the bare tables: any member of the chat, on a message that is there and not
  -- deleted, and then the reaction is inserted.
  pub add_reaction_exact :
      (i : ReactInput) (now : Time) (d : Db)
      → add_reaction (message_repository tables col) (chat_repository tables) id u i now d
        ≡ settle
            (validate_react i ▸ may_react (λ c. has_member c u d) (message_in id d))
            (Message.add_reaction tables col (new_reaction id u i.emoji now))
            d
  unfolding add_reaction assert_member
  add_reaction_exact i now d =
      simp message_queries (react_flow (validate_react i) (message_in id) (λ c. has_member c u) _ d)

  -- RemoveReaction
  pub remove_reaction_exact :
      (i : ReactInput) (d : Db)
      → remove_reaction (message_repository tables col) (chat_repository tables) id u i d
        ≡ settle
            (validate_react i ▸ may_react (λ c. has_member c u d) (message_in id d))
            (Message.remove_reaction tables col id u i.emoji)
            d
  unfolding remove_reaction assert_member
  remove_reaction_exact i d =
      simp message_queries (react_flow (validate_react i) (message_in id) (λ c. has_member c u) _ d)

check_reply_lem :
    (col : Collation) (c : Uuid) (o : Option Uuid)
    → check_reply (message_repository tables col) (chat_repository tables) c o
      ≡ seek (λ r. r) (λ d. may_reply c (λ id. message_in id d) o)
unfolding check_reply ◌>>=◌ found_message scan_message guard
check_reply_lem col c none = refl
check_reply_lem col c (some id) = fun_ext λ d. rw message_get_by_id_lem (ground arith)

send_flow :
    (valid : Result (Unit {0})) (joined : Db → Bool) (reply : Db → Result (Unit {0}))
    (write : Exec Db Message) (d : Db)
    → (do
      lift valid
      do b ← seek (λ b. ok b) joined; guard b not_chat_member
      seek (λ r. r) reply
      write)
        d
      ≡ settle (valid ▸ may_belong (joined d) ▸ reply d) write d
unfolding settle ◌>>=◌ guard
send_flow valid joined reply write d = ground arith

-- Send over the bare tables is decided by the rules: a valid input, a sender who is a member of
-- the chat, and a reply to a message of the same chat. Then the message is inserted, and else
-- nothing changes.
pub send_exact :
    (col : Collation) (u : Uuid) (i : SendInput) (now : Time) (id : Uuid) (d : Db)
    → send (message_repository tables col) (chat_repository tables) u i now id d
      ≡ settle
          (validate_send i
            ▸ may_belong (has_member i.chat_id u d)
            ▸ may_reply i.chat_id (λ id. message_in id d) i.reply_to_id)
          (do Message.create tables col (new_message id u i now); pure (new_message id u i now))
          d
unfolding send assert_member
send_exact col u i now id d =
    simp (check_reply_lem, is_member_lem)
      (send_flow (validate_send i) (has_member i.chat_id u)
        (λ d. may_reply i.chat_id (λ id. message_in id d) i.reply_to_id) _ d)
