-- ===== src/Cache/Mock.antt =====
-- internal/infrastructure/cache/mock/mock.go: the cache in memory. Each method holds the mutex for
-- all it does, so the calls come one after another; `now` is what `time.Now()` returns.
pub mod Laws
use vibechat.Prelude.{
  ℕ, ◌+◌, String, Bool, not, ◌&&◌, Option, none, some, ltb, ◌==◌, str_eq, if◌then◌else◌, ℤ, pos,
  negsuc,
}
use vibechat.Exec.{Result, ok, err, Exec}
use vibechat.Domain.Errors.{driver}
use vibechat.Domain.User.{Time, zero_time}

pub record Entry : Type 0 where
  pub value : String
  pub expires_at : Time

pub record MockCache : Type 0 where
  pub store : String → Option Entry
  pub now : Time

-- The numbers of the two errors of `Get`.
abbrev pub missing : ℕ
missing = 1

abbrev pub expired : ℕ
expired = 2

-- `!e.expiresAt.IsZero() && now.After(e.expiresAt)`
unfoldable pub is_over : Time → Entry → Bool
is_over now e = not (e.expires_at == zero_time) && ltb e.expires_at now

unfoldable pub put : String → Option Entry → (String → Option Entry) → String → Option Entry
put key e m j = if str_eq key j then e else m j

-- `New`
unfoldable pub new : Time → MockCache
new now = record { store = λ key. none; now = now }

unfoldable pub fetch : String → Option Entry → Exec MockCache String
unfolding is_over put
fetch key none k = (err (driver missing), k)
fetch key (some e) k =
    if is_over k.now e
    then (err (driver expired), record k { store = put key none k.store })
    else (ok e.value, k)

unfoldable pub get : String → Exec MockCache String
unfolding fetch
get key k = fetch key (k.store key) k

-- `if ttl > 0 { exp = time.Now().Add(ttl) }`
unfoldable pub expiry : ℤ → Time → Time
expiry (pos n) now = if n == 0 then zero_time else now + n
expiry (negsuc n) now = zero_time

unfoldable pub set : String → String → ℤ → Exec MockCache (Unit {0})
unfolding expiry put
set key value ttl k = (
  ok tt,
  record k {
    store = put key (some (record { value = value; expires_at = expiry ttl k.now })) k.store;
  },
)

unfoldable pub del : String → Exec MockCache (Unit {0})
unfolding put
del key k = (ok tt, record k { store = put key none k.store })

unfoldable pub keep_live : Time → Option Entry → Option Entry
unfolding is_over
keep_live now none = none
keep_live now (some e) = if is_over now e then none else some e

-- One round of `runCleanup`.
unfoldable pub delete_expired : MockCache → MockCache
unfolding keep_live
delete_expired k = record k { store = λ key. keep_live k.now (k.store key) }

-- The time goes on.
abbrev pub at_time : Time → MockCache → MockCache
at_time t k = record k { now = t }
