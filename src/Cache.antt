-- ===== src/Cache.antt =====
-- internal/infrastructure/cache/cache.go: the interface of a cache, as actions on a state of its own,
-- and what its clients rely on. `Ping` and `Close` are left to the driver.
pub mod Mock
use vibechat.Prelude.{String, ◌≡◌, ◌≢◌, ◌⊎◌, Option, some, ℤ}
use vibechat.Exec.{Exec, ok}

-- A time to live is in microseconds; one that is not positive never ends.
pub record Cache (K : Type 0) : Type 0 where
  pub get : String → Exec K String
  pub set : String → String → ℤ → Exec K (Unit {0})
  pub del : String → Exec K (Unit {0})

-- `peek` says which value is held under a key. A read finds nothing else and adds nothing; a write
-- reaches the cache, and touches one key.
pub record IsCache {K : Type 0} (cache : Cache K) (peek : String → K → Option String) : Type 0 where
  pub get-found :
      (key : String) (k : K) {v : String} → (cache.get key k).0 ≡ ok v → peek key k ≡ some v
  pub get-keeps :
      (key j : String) (k : K) {v : String}
      → peek j (cache.get key k).1 ≡ some v
      → peek j k ≡ some v
  pub set-writes :
      (key value : String) (ttl : ℤ) (j : String) (k : K) {v : String}
      → peek j (cache.set key value ttl k).1 ≡ some v
      → ((j ≡ key) × (v ≡ value)) ⊎ ((j ≢ key) × (peek j k ≡ some v))
  pub del-drops :
      (key j : String) (k : K) {v : String}
      → peek j (cache.del key k).1 ≡ some v
      → (j ≢ key) × (peek j k ≡ some v)

-- Time and other clients of the cache only take entries away.
abbrev pub Fewer : {K : Type 0} → (String → K → Option String) → K → K → Type 0
Fewer peek k' k = (key : String) (v : String) → peek key k' ≡ some v → peek key k ≡ some v
