-- ===== src/Delivery/Ws/Handler.antt =====
-- internal/delivery/ws/handler.go: a request for a connection. The upgrade of the connection, and the
-- life of the client from `NewClient` to the end of `Run`, are parameters.
use vibechat.Prelude.{String, Bool, true, false, List, [], ◌∷◌, map, any, str_eq}
use vibechat.Exec.{Result, ok, err, Exec, pure, try, ◌>>=◌}
use vibechat.Domain.User.{Uuid}
use vibechat.Domain.Chat.{ChatPreview}

-- `checkOrigin`: an empty set allows all; a header that is missing is the empty text.
unfoldable pub check_origin : List String → String → Bool
check_origin [] origin = true
check_origin (o ∷ os) origin = any (λ a. str_eq a origin) (o ∷ os)

-- The answer that the handler itself writes.
pub data Served : Type 0 where
  server_error not_upgraded disconnected : Served

module _ {S : Type 0} (get_user_chats : Uuid → Exec S (List ChatPreview))
    (set_online set_offline : Uuid → Exec S (Unit {0})) (upgrade : Exec S Bool)
    (run_client : Uuid → List Uuid → Exec S (Unit {0})) where
  unfoldable pub connected : Uuid → List Uuid → Exec S Served
  connected user_id chat_ids = do
    _ ← try (set_online user_id)
    _ ← try (run_client user_id chat_ids)
    _ ← try (set_offline user_id)
    pure disconnected

  unfoldable pub upgraded : Uuid → List Uuid → Result Bool → Exec S Served
  unfolding connected
  upgraded user_id chat_ids (ok true) = connected user_id chat_ids
  upgraded user_id chat_ids (ok false) = pure not_upgraded
  upgraded user_id chat_ids (err e) = pure not_upgraded

  unfoldable pub with_chats : Uuid → Result (List ChatPreview) → Exec S Served
  unfolding upgraded
  with_chats user_id (err e) = pure server_error
  with_chats user_id (ok previews) = do
    up ← try upgrade
    upgraded user_id (map (λ p. p.chat.id) previews) up

  unfoldable pub serve_http : Uuid → Exec S Served
  unfolding with_chats
  serve_http user_id = do previews ← try (get_user_chats user_id); with_chats user_id previews
