-- ===== src/Storage/Postgres/RoundTrip.antt =====
-- internal/infrastructure/storage/postgres/chat.go: what CreateWithMembers writes, GetByID reads
-- back, but for its times, which a column keeps only to the microsecond. The empty text is stored as
-- NULL.
use vibechat.Exec.{Exec}
use vibechat.Domain.Chat.{Chat}
use vibechat.Storage.Postgres.Chat
