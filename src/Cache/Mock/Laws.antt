-- ===== src/Cache/Mock/Laws.antt =====
-- internal/infrastructure/cache/mock/mock.go: the cache in memory keeps the promises of a cache, an
-- entry lives exactly as long as it was stored for, and the sweep takes only what was over.
use vibechat.Prelude.{
  ℕ, suc, ◌+◌, ◌≤◌, String, Bool, false, ◌≡◌, refl, Option, none, some, ltb, arith, eq_iff, pos,
  if◌then◌else◌,
}
use text.Mathlib.TextPositions.{eq_refl}
use vibechat.Exec.{ok, err}
use vibechat.Domain.Errors.{driver}
use vibechat.Domain.User.{Time}
use vibechat.Cache.{Cache, IsCache, Fewer}
use vibechat.Cache.Mock.{
  Entry, MockCache, is_over, put, fetch, get, set, del, expiry, keep_live, delete_expired, expired,
  missing, at_time,
}

abbrev pub mock : Cache MockCache
mock = record { get = get; set = set; del = del }

live_value : Time → Option Entry → Option String
unfolding is_over
live_value now none = none
live_value now (some e) = if is_over now e then none else some e.value

-- The value that a `Get` would return now; `none` where it would return an error, whichever.
unfoldable pub peek : String → MockCache → Option String
unfolding live_value
peek key k = live_value k.now (k.store key)

fetch-found :
    (key : String) (e : Option Entry) (k : MockCache) {v : String}
    → (fetch key e k).0 ≡ ok v
    → live_value k.now e ≡ some v
unfolding fetch live_value
fetch-found key none k h = absurd (cc)
fetch-found key (some e) k h = ground arith

fetch-store :
    (key : String) (e : Option Entry) (k : MockCache) (j : String) {v : String}
    → peek j (fetch key e k).1 ≡ some v
    → peek j k ≡ some v
unfolding fetch peek put
fetch-store key none k j h = h
fetch-store key (some e) k j h = ground arith

pub mock-IsCache : IsCache mock peek
unfolding get set del peek put
mock-IsCache = record {
  get-found = λ key k h. fetch-found key (k.store key) k h;
  get-keeps = λ key j k h. fetch-store key (k.store key) k j h;
  set-writes = λ key value ttl j k h. ground (arith, eq_iff key j);
  del-drops = λ key j k h. ground (arith, eq_iff key j);
}

-- An entry that is stored at some time for `suc n` is found at every time up to its end, the end
-- included, and a `Get` after that reports that it has expired.
pub lifetime :
    (key value : String) (n t : ℕ) (k : MockCache)
    → (get key (at_time t (set key value (pos (suc n)) k).1)).0
      ≡ (if ltb (k.now + suc n) t then err (driver expired) else ok value)
unfolding get set put is_over expiry fetch
lifetime key value n t k = ground (arith, eq_refl key)

-- An entry that a sweep takes.
abbrev pub is_stale : Time → Option Entry → Bool
is_stale now none = false
is_stale now (some e) = is_over now e

fetch-keep_live :
    (key : String) (now t : Time) (e : Option Entry) (k k' : MockCache)
    → now ≤ t
    → k.now ≡ t
    → k'.now ≡ t
    → ((fetch key (keep_live now e) k').0
        ≡ (if is_stale now e then err (driver missing) else (fetch key e k).0))
      × ((fetch key e k).0 ≡ (if is_stale now e then err (driver expired) else (fetch key e k).0))
unfolding fetch keep_live
fetch-keep_live key now t none k k' h a b = (refl, refl)
fetch-keep_live key now t (some e) k k' h a b = ground arith

-- After a sweep each lookup returns, then or later, what it would have returned without the sweep,
-- but for an entry that was over when the sweep ran: of that it says "not found", where it would have said "expired".
pub delete_expired_lem :
    (k : MockCache) (t : Time) (key : String)
    → k.now ≤ t
    → ((get key (at_time t (delete_expired k))).0 ≡ (
        if is_stale k.now (k.store key) then err (driver missing) else (get key (at_time t k)).0))
      × ((get key (at_time t k)).0 ≡ (
          if is_stale k.now (k.store key) then err (driver expired) else (get key (at_time t k)).0))
unfolding get delete_expired
delete_expired_lem k t key h =
    fetch-keep_live key k.now t (k.store key) (at_time t k) (at_time t (delete_expired k)) h refl
      refl

live_value-later :
    (now t : Time) (e : Option Entry) {v : String}
    → now ≤ t
    → live_value t e ≡ some v
    → live_value now e ≡ some v
unfolding live_value
live_value-later now t none h e = e
live_value-later now t (some x) h e = ground arith

-- The time that goes on only takes entries away.
pub at_time-Fewer : (k : MockCache) (t : Time) → k.now ≤ t → Fewer peek (at_time t k) k
unfolding peek
at_time-Fewer k t h key v e = live_value-later k.now t (k.store key) h e
