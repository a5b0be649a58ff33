-- ===== src/Delivery/RateLimit/Client.antt =====
-- internal/delivery/http/middleware/ratelimit.go, `clientIP`: the address that a request is counted
-- under.
use Prim.Native.Char.{code}
use Prim.Native.String.{String, [], ◌∷◌}
use vibechat.Prelude.{
  ℕ, Bool, not, ◌&&◌, ◌||◌, Option, none, some, ◌==◌, leb, str_eq, if◌then◌else◌,
}

-- `unicode.IsSpace`
unfoldable pub is_space : ℕ → Bool
is_space n =
    (leb 9 n && leb n 13)
    || n == 32
    || n == 133
    || n == 160
    || n == 5760
    || (leb 8192 n && leb n 8202)
    || n == 8232
    || n == 8233
    || n == 8239
    || n == 8287
    || n == 12288

unfoldable pub trim_left : String → String
unfolding is_space
trim_left [] = []
trim_left (c ∷ s) = let rest = trim_left s in if is_space (code c) then rest else c ∷ s

unfoldable pub trim_right : String → String
unfolding is_space
trim_right [] = []
trim_right (c ∷ s) =
    let rest = trim_right s in if is_space (code c) && str_eq rest "" then [] else c ∷ rest

-- `strings.SplitN(fwd, ",", 2)[0]`
unfoldable pub before_comma : String → String
before_comma [] = []
before_comma (c ∷ s) = let rest = before_comma s in if code c == 44 then [] else c ∷ rest

-- `addr[:strings.LastIndex(addr, ":")]`, and `none` without a colon.
unfoldable pub before_last_colon : String → Option String
before_last_colon [] = none
before_last_colon (c ∷ s) = elim (before_last_colon s) [
  | some rest ↦ some (c ∷ rest)
  | none ↦ if code c == 58 then some [] else none
]

or_whole : Option String → String → String
or_whole none s = s
or_whole (some t) s = t

-- The headers X-Real-IP and X-Forwarded-For, empty where they are missing, and the address of the
-- connection.
unfoldable pub client_ip : String → String → String → String
unfolding trim_left trim_right before_comma before_last_colon or_whole
client_ip real_ip forwarded_for remote_addr =
    if not (str_eq real_ip "")
    then real_ip
    else if not (str_eq forwarded_for "")
    then trim_right (trim_left (before_comma forwarded_for))
    else or_whole (before_last_colon remote_addr) remote_addr
