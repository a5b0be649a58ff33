-- ===== src/Domain/Errors.antt =====
-- internal/domain/errors.go. A validation error carries the message that wraps `ErrValidation`.
-- `driver` stands for every error that comes from the database driver or the network, by a number.
use vibechat.Prelude.{ℕ, String}

pub data Error : Type 0 where
  user_not_found email_taken username_taken invalid_credentials : Error
  chat_not_found not_chat_member already_chat_member insufficient_rights cannot_remove_owner : Error
  message_not_found not_message_author message_deleted : Error
  invalid_token expired_token : Error
  internal forbidden : Error
  validation : String → Error
  driver : ℕ → Error
