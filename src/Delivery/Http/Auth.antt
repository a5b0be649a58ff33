-- ===== src/Delivery/Http/Auth.antt =====
-- internal/delivery/http/middleware/auth.go: the token of a request. The comparison of texts without
-- regard to case and the validation of a token are parameters.
use Prim.Native.Char.{code}
use vibechat.Prelude.{String, Bool, not, Option, none, some, str_eq, ◌==◌, if◌then◌else◌}
use vibechat.Exec.{Result, ok, err, Exec, pure}
use vibechat.Domain.User.{Uuid}
use vibechat.Delivery.Http.{Response, unauthorized}

-- `strings.SplitN(header, " ", 2)` with two parts: the texts before and after the first blank.
unfoldable pub split_blank : String → Option (String × String)
split_blank String.[] = none
split_blank (String.◌∷◌ c s) =
    let rest = split_blank s in
    if code c == 32
    then some ("", s)
    else elim rest [ none ↦ none | some (a, b) ↦ some (String.◌∷◌ c a, b) ]

module _ {S : Type 0} {A : Type 0} (equal_fold : String → String → Bool)
    (validate_access_token : String → Result Uuid) where
  unfoldable pub admitted : Result Uuid → (Uuid → Exec S (Response A)) → Exec S (Response A)
  admitted (ok id) next = next id
  admitted (err e) next = pure unauthorized

  unfoldable pub bearer :
      Option (String × String) → (Uuid → Exec S (Response A)) → Exec S (Response A)
  unfolding admitted
  bearer none next = pure unauthorized
  bearer (some (scheme, token)) next =
      if not (equal_fold scheme "bearer")
      then pure unauthorized
      else admitted (validate_access_token token) next

  unfoldable pub auth : String → (Uuid → Exec S (Response A)) → Exec S (Response A)
  unfolding split_blank bearer
  auth header next =
      if str_eq header "" then pure unauthorized else bearer (split_blank header) next
