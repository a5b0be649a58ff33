-- ===== src/Delivery/RateLimit.antt =====
-- internal/delivery/http/middleware/ratelimit.go: the fixed window of the limiter. Each access to
-- the map stands under the mutex, so the requests and the purges come one after another.
pub mod Window
pub mod Client
use vibechat.Prelude.{
  ℕ, suc, ◌+◌, String, Bool, true, false, not, List, [], ◌∷◌, Option, none, some, ltb, str_eq,
  if◌then◌else◌,
}
use vibechat.Domain.User.{Time}

pub record Entry : Type 0 where
  pub count : ℕ
  pub reset_at : Time

-- The map `clients`, by the address of the client.
abbrev pub Clients : Type 0
Clients = String → Option Entry

unfoldable pub store : String → Entry → Clients → Clients
store ip e clients k = if str_eq ip k then some e else clients k

-- The deletion of the entries whose window is over, at each tick.
unfoldable pub keep_live : Time → Option Entry → Option Entry
keep_live now none = none
keep_live now (some e) = if ltb e.reset_at now then none else some e

unfoldable pub purge : Time → Clients → Clients
unfolding keep_live
purge now clients k = keep_live now (clients k)

-- A request: whether it is served, and the map after it.
unfoldable pub admit : ℕ → ℕ → String → Time → Option Entry → Bool × Entry
admit max_reqs window ip now none = (true, record { count = 1; reset_at = now + window })
admit max_reqs window ip now (some e) =
    if ltb e.reset_at now
    then (true, record { count = 1; reset_at = now + window })
    else (not (ltb max_reqs (suc e.count)), record e { count = suc e.count })

unfoldable pub serve : ℕ → ℕ → String → Time → Clients → Bool × Clients
unfolding admit store
serve max_reqs window ip now clients =
    let (served, e) = admit max_reqs window ip now (clients ip) in (served, store ip e clients)

-- What happens to the limiter, in the order of the mutex.
pub data Event : Type 0 where
  request : String → Time → Event
  tick : Time → Event

abbrev pub time_of : Event → Time
time_of (request ip now) = now
time_of (tick now) = now

-- How many requests of a client are served.
unfoldable pub served_to : ℕ → ℕ → String → List Event → Clients → ℕ
unfolding serve purge
served_to max_reqs window ip [] clients = 0
served_to max_reqs window ip (tick now ∷ es) clients =
    served_to max_reqs window ip es (purge now clients)
served_to max_reqs window ip (request q now ∷ es) clients =
    let (served, next) = serve max_reqs window q now clients in
    let rest = served_to max_reqs window ip es next in
    if str_eq q ip then (if served then suc rest else rest) else rest
