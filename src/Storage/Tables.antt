-- ===== src/Storage/Tables.antt =====
-- migrations/postgres/000001_init.up.sql: the tables as lists of rows. A nullable column is an
-- `Option`. `now` is what NOW() returns; it stands still within one request.
use vibechat.Prelude.{ℕ, String, List, Option}
use vibechat.Domain.User.{Uuid, Time, User}
use vibechat.Domain.Chat.{ChatType, MemberRole}
use vibechat.Domain.Message.{MessageType}

pub record UserRow : Type 0 where
  pub user : User
  pub deleted_at : Option Time

pub record ChatRow : Type 0 where
  pub id : Uuid
  pub type : ChatType
  pub name : Option String
  pub avatar_url : Option String
  pub description : Option String
  pub created_by : Uuid
  pub created_at : Time
  pub updated_at : Time
  pub deleted_at : Option Time

pub record MemberRow : Type 0 where
  pub chat_id : Uuid
  pub user_id : Uuid
  pub role : MemberRole
  pub joined_at : Time

pub record MessageRow : Type 0 where
  pub id : Uuid
  pub chat_id : Uuid
  pub sender_id : Uuid
  pub content : String
  pub type : MessageType
  pub reply_to_id : Option Uuid
  pub edited_at : Option Time
  pub deleted_at : Option Time
  pub created_at : Time
  pub updated_at : Time

pub record ReceiptRow : Type 0 where
  pub chat_id : Uuid
  pub user_id : Uuid
  pub last_read_at : Time

pub record ReactionRow : Type 0 where
  pub message_id : Uuid
  pub user_id : Uuid
  pub emoji : String
  pub created_at : Time

pub record Db : Type 0 where
  pub users : List UserRow
  pub chats : List ChatRow
  pub members : List MemberRow
  pub messages : List MessageRow
  pub receipts : List ReceiptRow
  pub reactions : List ReactionRow
  pub now : Time

-- The number of a constraint error among the driver's errors: SQLSTATE 23505, 23503 and 23514.
abbrev pub unique_violation : ℕ
unique_violation = 23505

abbrev pub foreign_key_violation : ℕ
foreign_key_violation = 23503

abbrev pub string_too_long : ℕ
string_too_long = 22001

abbrev pub check_violation : ℕ
check_violation = 23514
