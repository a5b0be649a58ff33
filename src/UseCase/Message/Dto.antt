-- ===== src/UseCase/Message/Dto.antt =====
-- internal/usecase/message/dto.go: the inputs of the service, their validation, and pages.
use vibechat.Prelude.{
  ℕ, String, not, List, [], ◌∷◌, Option, none, some, ◌==◌, ltb, length, if◌then◌else◌,
}
use vibechat.Exec.{Result}
use vibechat.Domain.User.{Uuid, nil_uuid}
use vibechat.Domain.Message.{Message, MessageCursor}
use vibechat.Validate.{V, new, check, result, min_len, max_len, one_of}

-- The type is text until it is validated.
pub record SendInput : Type 0 where
  pub chat_id : Uuid
  pub content : String
  pub type : String
  pub reply_to_id : Option Uuid

check_content : String → V → V
unfolding check
check_content s v =
    check (check v (min_len s 1) "content must not be empty") (max_len s 4096)
      "content must be at most 4096 characters"

unfoldable pub validate_send : SendInput → Result (Unit {0})
unfolding check result check_content one_of
validate_send i =
    let v = check new (not (i.chat_id == nil_uuid)) "chat_id is required" in
    result (
      check (check_content i.content v) (one_of i.type ("text" ∷ "image" ∷ "file" ∷ []))
        "type must be one of: text, image, file")

pub record EditInput : Type 0 where
  pub content : String

unfoldable pub validate_edit : EditInput → Result (Unit {0})
unfolding result check_content
validate_edit i = result (check_content i.content new)

-- The handler passes a limit from 1 to 100.
pub record ListInput : Type 0 where
  pub chat_id : Uuid
  pub cursor : Option MessageCursor
  pub limit : ℕ

pub record ReactInput : Type 0 where
  pub emoji : String

unfoldable pub validate_react : ReactInput → Result (Unit {0})
unfolding check result
validate_react i = result (
    check (check new (min_len i.emoji 1) "emoji is required") (max_len i.emoji 10)
      "emoji must be at most 10 characters")

pub record PageResult : Type 0 where
  pub messages : List Message
  pub next_cursor : Option MessageCursor

-- `msgs[len(msgs)-1]`, which panics on an empty slice.
unfoldable pub last_of : List Message → Option Message
last_of [] = none
last_of (m ∷ []) = some m
last_of (m ∷ n ∷ ms) = last_of (n ∷ ms)

abbrev pub cursor_of : Message → MessageCursor
cursor_of m = record { created_at = m.created_at; id = m.id }

-- The outer `none` is a panic.
unfoldable pub next_cursor : List Message → ℕ → Option (Option MessageCursor)
unfolding last_of
next_cursor msgs limit =
    if ltb (length msgs) limit
    then some none
    else elim (last_of msgs) [ none ↦ none | some m ↦ some (some (cursor_of m)) ]

unfoldable pub build_page_result : List Message → ℕ → Option PageResult
unfolding next_cursor
build_page_result msgs limit = elim (next_cursor msgs limit) [
  | none ↦ none
  | some c ↦ some (record { messages = msgs; next_cursor = c })
]
