-- ===== src/Storage/Cached/User.antt =====
-- internal/infrastructure/storage/cached/user.go: the repository of users behind a cache.
pub mod Coherent
pub mod History
pub mod Origin
use Prim.Native.String.{◌++◌}
use vibechat.Prelude.{String, ℕ, List, Option, none, some, ℤ}
use vibechat.Exec.{Exec, pure, try, ◌>>=◌, ◌>>◌}
use vibechat.Cache.{Cache}
use vibechat.Domain.User.{Uuid, Time, User, UserStatus, UserRepository}
use vibechat.Storage.Cached.{Codec, from_origin, in_cache, decoded}

module _ (show : Uuid → String) where
  unfoldable pub user_key : Uuid → String
  user_key id = "user:" ++ show id

module _ {S K : Type 0} (show : Uuid → String) (codec : Codec User) (origin : UserRepository S)
    (cache : Cache K) (ttl : ℤ) where
  -- What follows a miss: the user is stored, if it can be encoded; an error of `Set` is only logged.
  unfoldable pub remember : Uuid → User → Exec (S × K) (Unit {0})
  unfolding user_key
  remember id u = elim (codec.marshal u) [
    | none ↦ pure tt
    | some b ↦ do _ ← try (in_cache (cache.set (user_key show id) b ttl)); pure tt
  ]

  unfoldable pub fetch : Uuid → Exec (S × K) User
  unfolding remember
  fetch id = do u ← from_origin (origin.get_by_id id); remember id u; pure u

  -- A hit that decodes, and the origin otherwise.
  unfoldable pub use_hit : Uuid → Option User → Exec (S × K) User
  unfolding fetch
  use_hit id (some u) = pure u
  use_hit id none = fetch id

  unfoldable pub get_by_id : Uuid → Exec (S × K) User
  unfolding user_key decoded use_hit
  get_by_id id = do
    raw ← try (in_cache (cache.get (user_key show id)))
    use_hit id (decoded codec.unmarshal raw)

  -- The entry goes when the write has been made; an error of `Del` is only logged.
  unfoldable pub invalidate : Uuid → Exec (S × K) (Unit {0})
  unfolding user_key
  invalidate id = do _ ← try (in_cache (cache.del (user_key show id))); pure tt

  unfoldable pub update : User → Exec (S × K) (Unit {0})
  unfolding invalidate
  update u = do from_origin (origin.update u); invalidate u.id

  unfoldable pub update_status : Uuid → UserStatus → Time → Exec (S × K) (Unit {0})
  unfolding invalidate
  update_status id status last_seen = do
    from_origin (origin.update_status id status last_seen)
    invalidate id

  unfoldable pub delete : Uuid → Exec (S × K) (Unit {0})
  unfolding invalidate
  delete id = do from_origin (origin.delete id); invalidate id

  unfoldable pub create : User → Exec (S × K) (Unit {0})
  create u = from_origin (origin.create u)

  unfoldable pub get_by_email : String → Exec (S × K) User
  get_by_email email = from_origin (origin.get_by_email email)

  unfoldable pub get_by_username : String → Exec (S × K) User
  get_by_username username = from_origin (origin.get_by_username username)

  unfoldable pub search : String → ℕ → ℕ → Exec (S × K) (List User)
  search query limit offset = from_origin (origin.search query limit offset)

  -- `NewUserRepository` with a cache
  abbrev pub user_repository : UserRepository (S × K)
  user_repository = record {
    create = create;
    get_by_id = get_by_id;
    get_by_email = get_by_email;
    get_by_username = get_by_username;
    update = update;
    update_status = update_status;
    search = search;
    delete = delete;
  }
