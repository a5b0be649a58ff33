-- ===== src/Storage/Cached.antt =====
-- internal/infrastructure/storage/cached: repositories before which a cache stands. The state is that
-- of the origin beside that of the cache. `encoding/json` and the printed form of a uuid are
-- parameters.
pub mod User
pub mod Chat
use vibechat.Prelude.{String, Option, none, some, ◌≡◌}
use vibechat.Exec.{Result, ok, err, Exec}

-- `json.Marshal` and `json.Unmarshal` at one type.
pub record Codec (A : Type 0) : Type 0 where
  pub marshal : A → Option String
  pub unmarshal : String → Option A

-- What is read back is what was written, less the fields that the tags leave out.
pub record IsCodec {A : Type 0} (codec : Codec A) (shown : A → A) : Type 0 where
  pub unmarshal-marshal :
      (a : A) {raw : String} → codec.marshal a ≡ some raw → codec.unmarshal raw ≡ some (shown a)

module _ {S K A : Type 0} where
  -- A call of the origin.
  unfoldable pub from_origin : Exec S A → Exec (S × K) A
  from_origin m (s, k) = let (r, s') = m s in (r, (s', k))

  -- A call of the cache.
  unfoldable pub in_cache : Exec K A → Exec (S × K) A
  in_cache m (s, k) = let (r, k') = m k in (r, (s, k'))

-- What a cached value decodes to, if it was found.
unfoldable pub decoded : {A : Type 0} → (String → Option A) → Result String → Option A
decoded unmarshal (ok raw) = unmarshal raw
decoded unmarshal (err e) = none
