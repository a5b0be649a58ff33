-- ===== src/Storage/Cached/Chat/Races.antt =====
-- internal/infrastructure/storage/cached/chat.go: `Update` with a reader between its two steps.
use vibechat.Prelude.{String, ◌≡◌, refl, some, ℤ}
use vibechat.Exec.{ok, err, pure, try, ◌>>=◌, ◌>>◌}
use vibechat.Cache.{Cache}
use vibechat.Domain.Errors.{Error}
use vibechat.Domain.User.{Uuid}
use vibechat.Domain.Chat.{Chat, ChatMember, ChatRepository}
use vibechat.Storage.Cached.{Codec, from_origin, in_cache, decoded}
use vibechat.Storage.Cached.Chat
use vibechat.Storage.Cached.Chat.{chat_key, drop, put, put_json, hit_chat}

module _ {S K : Type 0} (show : Uuid → String) (chats : Codec Chat) (members : Codec ChatMember)
    (origin : ChatRepository S) (cache : Cache K) (chat_ttl member_ttl : ℤ) where
  -- A hit answers with what is cached.
  get_by_id-hit :
      (id : Uuid) (old : Chat) (raw : String) (s : S) (k : K)
      → (cache.get (chat_key show id) k).0 ≡ ok raw
      → chats.unmarshal raw ≡ some old
      → (Chat.get_by_id show chats members origin cache chat_ttl member_ttl id (s, k)).0 ≡ ok old
  unfolding Chat.get_by_id hit_chat decoded in_cache pure ◌>>=◌
  get_by_id-hit id old raw s k g u = rw (g, u) refl

  -- A miss caches what the origin has.
  get_by_id-miss :
      (id : Uuid) (old : Chat) (raw : String) (s : S) (k : K) {e : Error}
      → (cache.get (chat_key show id) k).0 ≡ err e
      → origin.get_by_id id s ≡ (ok old, s)
      → chats.marshal old ≡ some raw
      → Chat.get_by_id show chats members origin cache chat_ttl member_ttl id (s, k) ≡ (
        ok old,
        (s, (cache.set (chat_key show id) raw chat_ttl (cache.get (chat_key show id) k).1).1),
      )
  unfolding Chat.get_by_id hit_chat decoded in_cache from_origin put_json put pure try ◌>>=◌
  get_by_id-miss id old raw s k g o m = rw (g, o, put_json, m) refl

  -- `Update` drops the entry of the chat and then writes. Where a reader comes between the two steps,
  -- the origin has the chat, its JSON is read as it was written, a deleted key is not found and a key that
  -- was set is: the read after an update that has succeeded answers with the chat as it was before.
  pub update_raced :
      (c old : Chat) (raw : String) (s s' : S) (k : K) (e : Error)
      → origin.get_by_id c.id s ≡ (ok old, s)
      → origin.update c s ≡ (ok tt, s')
      → chats.marshal old ≡ some raw
      → chats.unmarshal raw ≡ some old
      → ((j : K) → (cache.get (chat_key show c.id) (cache.del (chat_key show c.id) j).1).0 ≡ err e)
      → ((j : K)
          → (cache.get (chat_key show c.id) (cache.set (chat_key show c.id) raw chat_ttl j).1).0
            ≡ ok raw)
      → let reader = Chat.get_by_id show chats members origin cache chat_ttl member_ttl c.id in
        let first = drop cache (chat_key show c.id) in
        let second = from_origin (origin.update c) in
        (Chat.update show chats members origin cache chat_ttl member_ttl c ≡ (first >> second))
        × (((first >> (reader >>= λ _. (second >> reader))) (s, k)).0 ≡ ok old)
  unfolding Chat.update drop in_cache from_origin pure try ◌>>=◌
  update_raced c old raw s s' k e found written m u deleted put_there =
      let key = chat_key show c.id in
      let k1 = (cache.del key k).1 in
      let k2 = (cache.get key k1).1 in
      (
        refl,
        rw (get_by_id-miss c.id old raw s k1 (deleted k) found m, written)
            (get_by_id-hit c.id old raw s' (cache.set key raw chat_ttl k2).1 (put_there k2) u),
      )
