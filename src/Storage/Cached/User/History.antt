-- ===== src/Storage/Cached/User/History.antt =====
-- internal/infrastructure/storage/cached/user.go: histories of calls from an empty cache.
use vibechat.Prelude.{String, ℕ, ◌≡◌, ◌∙◌, Option, none, ℤ}
use vibechat.Cache.{Cache, IsCache, Fewer}
use vibechat.Domain.User.{Uuid, Time, User, UserStatus, UserRepository}
use vibechat.Storage.Cached.{Codec, IsCodec}
use vibechat.Storage.Cached.User
use vibechat.Storage.Cached.User.{user_repository}
use vibechat.Storage.Cached.User.Coherent
use vibechat.Storage.Cached.User.Coherent.{without_hash, IsUserStore}

-- A call of the repository, whatever it returns.
pub data UserCall : Type 0 where
  creates updates : User → UserCall
  gets_by_id deletes : Uuid → UserCall
  gets_by_email gets_by_username : String → UserCall
  updates_status : Uuid → UserStatus → Time → UserCall
  searches : String → ℕ → ℕ → UserCall

abbrev pub after : {S : Type 0} → UserRepository S → UserCall → S → S
after repo (creates u) s = (repo.create u s).1
after repo (updates u) s = (repo.update u s).1
after repo (gets_by_id id) s = (repo.get_by_id id s).1
after repo (deletes id) s = (repo.delete id s).1
after repo (gets_by_email e) s = (repo.get_by_email e s).1
after repo (gets_by_username n) s = (repo.get_by_username n s).1
after repo (updates_status id st t) s = (repo.update_status id st t s).1
after repo (searches q limit offset) s = (repo.search q limit offset s).1

-- The states that calls reach, while entries of the cache may go at any time.
pub data Reach {S K : Type 0} (repo : UserRepository (S × K)) (peek : String → K → Option String)
    (st : S × K) : S × K → Type 0 where
  start : Reach repo peek st st
  call :
      (c : UserCall) {s : S} {k : K}
      → Reach repo peek st (s, k)
      → Reach repo peek st (after repo c (s, k))
  aged :
      {s : S} {k : K} (k' : K)
      → Fewer peek k' k
      → Reach repo peek st (s, k)
      → Reach repo peek st (s, k')

module _ {S K : Type 0} {show : Uuid → String} {codec : Codec User} {origin : UserRepository S}
    {cache : Cache K} {peek : String → K → Option String} {look : Uuid → S → Option User} (ttl : ℤ)
    (injective : (a b : Uuid) → show a ≡ show b → a ≡ b) (json : IsCodec codec without_hash)
    (store : IsUserStore origin look) (law : IsCache cache peek) where
  abbrev repo : UserRepository (S × K)
  repo = user_repository show codec origin cache ttl

  abbrev Good : S × K → Type 0
  Good = Coherent.Coherent ttl injective json store law

  call-Good : (c : UserCall) (s : S) (k : K) → Good (s, k) → Good (after repo c (s, k))
  unfolding User.create User.update User.update_status User.delete User.get_by_email
      User.get_by_username User.search
  call-Good (creates u) s k h =
      Coherent.call-Coherent ttl injective json store law (origin.create u)
        (λ j t v l. store.create-keeps u j t l) (s, k) h
  call-Good (updates u) s k h =
      Coherent.write-Coherent ttl injective json store law (origin.update u) u.id
        (store.update-other u) (λ j t e. store.update-failed u j t) (s, k) h
  call-Good (gets_by_id id) s k h =
      (Coherent.get_by_id-Coherent ttl injective json store law id s k h).0
  call-Good (deletes id) s k h =
      Coherent.write-Coherent ttl injective json store law (origin.delete id) id
        (store.delete-other id) (λ j t e. store.delete-failed id j t) (s, k) h
  call-Good (gets_by_email e) s k h =
      Coherent.call-Coherent ttl injective json store law (origin.get_by_email e)
        (λ j t v l. store.get_by_email-look e j t ∙ l) (s, k) h
  call-Good (gets_by_username n) s k h =
      Coherent.call-Coherent ttl injective json store law (origin.get_by_username n)
        (λ j t v l. store.get_by_username-look n j t ∙ l) (s, k) h
  call-Good (updates_status id st t) s k h =
      Coherent.write-Coherent ttl injective json store law (origin.update_status id st t) id
        (store.update_status-other id st t) (λ j x e. store.update_status-failed id st t j x) (s, k)
        h
  call-Good (searches q limit offset) s k h =
      Coherent.call-Coherent ttl injective json store law (origin.search q limit offset)
        (λ j t v l. store.search-look q limit offset j t ∙ l) (s, k) h

  Reach-Good : (st : S × K) {t : S × K} → Good st → Reach repo peek st t → Good t
  Reach-Good st h start = h
  Reach-Good st h (call c {s} {k} r) = call-Good c s k (Reach-Good st h r)
  Reach-Good st h (aged {s} {k} k' fewer r) =
      Coherent.moved ttl injective json store law s s k k' (λ j v l. l) fewer (Reach-Good st h r)

  Coherent-empty : (s : S) (k : K) → ((key : String) → peek key k ≡ none) → Good (s, k)
  unfolding Coherent.Coherent
  Coherent-empty s k empty id raw u p d = let e = empty (User.user_key show id) in absurd (cc)

  -- With a cache that was empty at the start, after any calls of the repository and any loss of
  -- entries, a lookup by id that returns a user returns the account that the origin has then, up to
  -- the hash of its password, and a lookup that fails returns the error of the origin's lookup. The
  -- printed form of an id is injective, JSON gives back a user without the hash, the writes to the
  -- cache arrive, and the calls of the origin leave alone the accounts that they do not name.
  pub get_by_id-current :
      (s₀ : S) (k₀ : K)
      → ((key : String) → peek key k₀ ≡ none)
      → (s : S) (k : K) → Reach repo peek (s₀, k₀) (s, k)
      → (id : Uuid)
      → Coherent.Answers ttl injective json store law id s (repo.get_by_id id (s, k)).0
  get_by_id-current s₀ k₀ empty s k r id =
      (Coherent.get_by_id-Coherent ttl injective json store law id s k
        (Reach-Good (s₀, k₀) (Coherent-empty s₀ k₀ empty) r)).1
