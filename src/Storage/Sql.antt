-- ===== src/Storage/Sql.antt =====
-- The SQL text of the repositories of PostgreSQL, as actions on the tables.
pub mod Chats
pub mod Previews
pub mod Users
pub mod Messages
pub mod Reactions
