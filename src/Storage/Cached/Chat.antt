-- ===== src/Storage/Cached/Chat.antt =====
-- internal/infrastructure/storage/cached/chat.go: the repository of chats behind a cache.
pub mod Races
use Prim.Native.String.{◌++◌}
use vibechat.Prelude.{String, Bool, str_eq, List, [], ◌∷◌, Option, none, some, ℤ, if◌then◌else◌}
use vibechat.Exec.{Result, ok, err, Exec, pure, try, ◌>>=◌, ◌>>◌}
use vibechat.Cache.{Cache}
use vibechat.Domain.User.{Uuid}
use vibechat.Domain.Chat.{Chat, ChatMember, ChatPreview, MemberRole, ChatRepository}
use vibechat.Storage.Cached.{Codec, from_origin, in_cache, decoded}

module _ (show : Uuid → String) where
  unfoldable pub chat_key : Uuid → String
  chat_key id = "chat:" ++ show id

  unfoldable pub member_key : Uuid → Uuid → String
  member_key chat_id user_id = "chatmember:" ++ show chat_id ++ ":" ++ show user_id

  unfoldable pub is_member_key : Uuid → Uuid → String
  is_member_key chat_id user_id = "ismember:" ++ show chat_id ++ ":" ++ show user_id

module _ {S K : Type 0} (cache : Cache K) where
  -- A write to the cache whose error is dropped or only logged.
  unfoldable pub put : String → String → ℤ → Exec (S × K) (Unit {0})
  put key value ttl = do _ ← try (in_cache (cache.set key value ttl)); pure tt

  unfoldable pub drop : String → Exec (S × K) (Unit {0})
  drop key = do _ ← try (in_cache (cache.del key)); pure tt

  -- `if b, err := json.Marshal(x); err == nil { Set }`
  unfoldable pub put_json : {A : Type 0} → Codec A → String → A → ℤ → Exec (S × K) (Unit {0})
  unfolding put
  put_json codec key a ttl = elim (codec.marshal a) [ none ↦ pure tt | some b ↦ put key b ttl ]

module _ {S K : Type 0} (show : Uuid → String) (chats : Codec Chat) (members : Codec ChatMember)
    (origin : ChatRepository S) (cache : Cache K) (chat_ttl member_ttl : ℤ) where
  unfoldable pub hit_chat : Uuid → Option Chat → Exec (S × K) Chat
  unfolding chat_key put_json
  hit_chat id (some c) = pure c
  hit_chat id none = do
    c ← from_origin (origin.get_by_id id)
    put_json cache chats (chat_key show id) c chat_ttl
    pure c

  unfoldable pub get_by_id : Uuid → Exec (S × K) Chat
  unfolding chat_key decoded hit_chat
  get_by_id id = do
    raw ← try (in_cache (cache.get (chat_key show id)))
    hit_chat id (decoded chats.unmarshal raw)

  -- `return raw == "1", nil` on a hit; the answer is stored as "1" or "0" after a miss.
  unfoldable pub hit_is_member : Uuid → Uuid → Result String → Exec (S × K) Bool
  unfolding is_member_key put
  hit_is_member chat_id user_id (ok raw) = pure (str_eq raw "1")
  hit_is_member chat_id user_id (err e) = do
    joined ← from_origin (origin.is_member chat_id user_id)
    put cache (is_member_key show chat_id user_id) (if joined then "1" else "0") member_ttl
    pure joined

  unfoldable pub is_member : Uuid → Uuid → Exec (S × K) Bool
  unfolding is_member_key hit_is_member
  is_member chat_id user_id = do
    raw ← try (in_cache (cache.get (is_member_key show chat_id user_id)))
    hit_is_member chat_id user_id raw

  unfoldable pub hit_member : Uuid → Uuid → Option ChatMember → Exec (S × K) ChatMember
  unfolding member_key put_json
  hit_member chat_id user_id (some m) = pure m
  hit_member chat_id user_id none = do
    m ← from_origin (origin.get_member chat_id user_id)
    put_json cache members (member_key show chat_id user_id) m member_ttl
    pure m

  unfoldable pub get_member : Uuid → Uuid → Exec (S × K) ChatMember
  unfolding member_key decoded hit_member
  get_member chat_id user_id = do
    raw ← try (in_cache (cache.get (member_key show chat_id user_id)))
    hit_member chat_id user_id (decoded members.unmarshal raw)

  -- The two entries of a member who has just come in.
  unfoldable pub seed : Uuid → ChatMember → Exec (S × K) (Unit {0})
  unfolding is_member_key member_key put put_json
  seed chat_id m = do
    put cache (is_member_key show chat_id m.user_id) "1" member_ttl
    put_json cache members (member_key show chat_id m.user_id) m member_ttl

  unfoldable pub seed_all : Uuid → List ChatMember → Exec (S × K) (Unit {0})
  unfolding seed
  seed_all chat_id [] = pure tt
  seed_all chat_id (m ∷ ms) = seed chat_id m >> seed_all chat_id ms

  unfoldable pub create_with_members : Chat → List ChatMember → Exec (S × K) (Unit {0})
  unfolding seed_all
  create_with_members c ms = do from_origin (origin.create_with_members c ms); seed_all c.id ms

  -- The entry goes before the write.
  unfoldable pub update : Chat → Exec (S × K) (Unit {0})
  unfolding chat_key drop
  update c = do drop cache (chat_key show c.id); from_origin (origin.update c)

  unfoldable pub forget : Uuid → Uuid → Exec (S × K) (Unit {0})
  unfolding is_member_key member_key drop
  forget chat_id user_id = do
    drop cache (is_member_key show chat_id user_id)
    drop cache (member_key show chat_id user_id)

  unfoldable pub forget_all : Uuid → List ChatMember → Exec (S × K) (Unit {0})
  unfolding forget
  forget_all chat_id [] = pure tt
  forget_all chat_id (m ∷ ms) = forget chat_id m.user_id >> forget_all chat_id ms

  -- `members, _ := …`: no members after an error.
  unfoldable pub members_or_none : Result (List ChatMember) → List ChatMember
  members_or_none (ok ms) = ms
  members_or_none (err e) = []

  unfoldable pub delete : Uuid → Exec (S × K) (Unit {0})
  unfolding chat_key drop forget_all members_or_none
  delete id = do
    ms ← try (from_origin (origin.get_members id))
    from_origin (origin.delete id)
    drop cache (chat_key show id)
    forget_all id (members_or_none ms)

  unfoldable pub add_member : ChatMember → Exec (S × K) (Unit {0})
  unfolding seed
  add_member m = do from_origin (origin.add_member m); seed m.chat_id m

  unfoldable pub remove_member : Uuid → Uuid → Exec (S × K) (Unit {0})
  unfolding forget
  remove_member chat_id user_id = do
    from_origin (origin.remove_member chat_id user_id)
    forget chat_id user_id

  unfoldable pub update_member_role : Uuid → Uuid → MemberRole → Exec (S × K) (Unit {0})
  unfolding member_key drop
  update_member_role chat_id user_id role = do
    from_origin (origin.update_member_role chat_id user_id role)
    drop cache (member_key show chat_id user_id)

  unfoldable pub get_user_chats : Uuid → Exec (S × K) (List ChatPreview)
  get_user_chats user_id = from_origin (origin.get_user_chats user_id)

  unfoldable pub get_direct_chat : Uuid → Uuid → Exec (S × K) Chat
  get_direct_chat user1_id user2_id = from_origin (origin.get_direct_chat user1_id user2_id)

  unfoldable pub get_members : Uuid → Exec (S × K) (List ChatMember)
  get_members chat_id = from_origin (origin.get_members chat_id)

  -- `NewChatRepository` with a cache
  abbrev pub chat_repository : ChatRepository (S × K)
  chat_repository = record {
    create_with_members = create_with_members;
    get_by_id = get_by_id;
    update = update;
    delete = delete;
    add_member = add_member;
    remove_member = remove_member;
    get_member = get_member;
    get_members = get_members;
    update_member_role = update_member_role;
    get_user_chats = get_user_chats;
    get_direct_chat = get_direct_chat;
    is_member = is_member;
  }
