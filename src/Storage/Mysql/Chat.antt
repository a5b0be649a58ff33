-- ===== src/Storage/Mysql/Chat.antt =====
-- internal/infrastructure/storage/mysql/chat.go: the repository of chats over a handle.
use vibechat.Prelude.{ℕ, Bool, List, [], ◌∷◌, Option, none, some, if◌then◌else◌, ◌==◌}
use vibechat.Exec.{Result, ok, err, Exec, pure, lift, ◌>>=◌, ◌>>◌}
use vibechat.Domain.Errors.{Error, chat_not_found, not_chat_member, already_chat_member}
use vibechat.Domain.User.{Uuid}
use vibechat.Domain.Chat.{Chat, ChatMember, ChatPreview, ChatRepository, MemberRole}
use vibechat.Storage.Tables.{ChatRow}
use vibechat.Storage.Connection.{Connection}
use vibechat.Storage.Mysql.Chats.{
  insert_chat, insert_member, insert_ignore_member, select_chat, update_chat, soft_delete_chat,
  delete_member, set_role, select_member, select_members, select_direct_chat, exists_member,
}
use vibechat.Storage.Sql.Chats.{string_of}
use vibechat.Storage.Mysql.Previews.{select_user_chats}

-- `if n == 0 { return e }`
unfoldable pub affected : Error → ℕ → Result (Unit {0})
affected e n = if n == 0 then err e else ok tt

-- `sql.ErrNoRows` is the caller's error.
unfoldable pub found {ℓ} : {A : Type ℓ} → Error → Option A → Result A
found e none = err e
found e (some a) = ok a

-- A `sql.NullString` that is not valid is the empty text.
unfoldable pub scan_chat : ChatRow → Chat
unfolding string_of
scan_chat r = record {
  id = r.id;
  type = r.type;
  name = string_of r.name;
  avatar_url = string_of r.avatar_url;
  description = string_of r.description;
  created_by = r.created_by;
  created_at = r.created_at;
  updated_at = r.updated_at;
}

unfoldable pub found_chat : Option ChatRow → Result Chat
unfolding scan_chat
found_chat none = err chat_not_found
found_chat (some r) = ok (scan_chat r)

module _ {S : Type 0} (conn : Connection S) where
  unfoldable pub insert_members : List ChatMember → Exec S (Unit {0})
  insert_members [] = pure tt
  insert_members (m ∷ ms) = conn.exec Unit (insert_member m) >> insert_members ms

  unfoldable pub create_with_members : Chat → List ChatMember → Exec S (Unit {0})
  unfolding insert_members
  create_with_members c members =
      conn.transaction Unit (do conn.exec Unit (insert_chat c); insert_members members)

  unfoldable pub get_by_id : Uuid → Exec S Chat
  unfolding found_chat
  get_by_id id = do row ← conn.exec _ (select_chat id); lift (found_chat row)

  unfoldable pub update : Chat → Exec S (Unit {0})
  unfolding affected
  update c = do n ← conn.exec ℕ (update_chat c); lift (affected chat_not_found n)

  -- The number of the rows is not looked at.
  unfoldable pub delete : Uuid → Exec S (Unit {0})
  delete id = do _ ← conn.exec ℕ (soft_delete_chat id); lift (ok tt)

  unfoldable pub add_member : ChatMember → Exec S (Unit {0})
  unfolding affected
  add_member m = do n ← conn.exec ℕ (insert_ignore_member m); lift (affected already_chat_member n)

  unfoldable pub remove_member : Uuid → Uuid → Exec S (Unit {0})
  unfolding affected
  remove_member chat_id user_id = do
    n ← conn.exec ℕ (delete_member chat_id user_id)
    lift (affected not_chat_member n)

  unfoldable pub get_member : Uuid → Uuid → Exec S ChatMember
  unfolding found
  get_member chat_id user_id = do
    m ← conn.exec _ (select_member chat_id user_id)
    lift (found not_chat_member m)

  unfoldable pub get_members : Uuid → Exec S (List ChatMember)
  get_members chat_id = conn.exec _ (select_members chat_id)

  unfoldable pub update_member_role : Uuid → Uuid → MemberRole → Exec S (Unit {0})
  unfolding affected
  update_member_role chat_id user_id role = do
    n ← conn.exec ℕ (set_role chat_id user_id role)
    lift (affected not_chat_member n)

  unfoldable pub get_user_chats : Uuid → Exec S (List ChatPreview)
  get_user_chats user_id = conn.exec _ (select_user_chats user_id)

  unfoldable pub get_direct_chat : Uuid → Uuid → Exec S Chat
  unfolding found_chat
  get_direct_chat user1_id user2_id = do
    row ← conn.exec _ (select_direct_chat user1_id user2_id)
    lift (found_chat row)

  unfoldable pub is_member : Uuid → Uuid → Exec S Bool
  is_member chat_id user_id = conn.exec Bool (exists_member chat_id user_id)

  -- `NewChatRepository`
  abbrev pub chat_repository : ChatRepository S
  chat_repository = record {
    create_with_members = create_with_members;
    get_by_id = get_by_id;
    update = update;
    delete = delete;
    add_member = add_member;
    remove_member = remove_member;
    get_member = get_member;
    get_members = get_members;
    update_member_role = update_member_role;
    get_user_chats = get_user_chats;
    get_direct_chat = get_direct_chat;
    is_member = is_member;
  }
