-- ===== src/Storage/Mysql.antt =====
-- internal/infrastructure/storage/mysql: the statements that the repositories send to MySQL, over the
-- same tables, and the repositories. The data source name does not set clientFoundRows, so an UPDATE
-- reports the rows that it changed and not those that it found.
pub mod Chats
pub mod Previews
pub mod Users
pub mod Chat
pub mod User
pub mod Refines
pub mod Messages
pub mod Message
pub mod Reactions
pub mod Differs
use vibechat.Prelude.{ℕ}

-- The numbers of MySQL's errors: duplicate entry, foreign key, check constraint, text too long.
abbrev pub dup_entry : ℕ
dup_entry = 1062

abbrev pub no_referenced_row : ℕ
no_referenced_row = 1452

abbrev pub check_violated : ℕ
check_violated = 3819

abbrev pub data_too_long : ℕ
data_too_long = 1406
