-- ===== src/Tests.antt =====
-- The theorems at concrete inputs: a group of three people, behind a network that fails one
-- statement.
mod Data
mod Chats
mod Messages
mod Accounts
mod Limits
mod Cached
mod Sockets
mod Mysql
mod Http
mod Emoji
mod Races
