-- ===== src/Tests/Cached.antt =====
-- The theorems about the caches, on a network before the tables of `Data`.
use Prim.Native.String.{◌∷◌ as cons}
use mathlib.Core.Path.{subst}
use mathlib.Core.Option.{some-injective}
use native.Mathlib.Decide.{ℕ_discrete}
use vibechat.Prelude.{
  ℕ, zero, suc, String, ◌≡◌, refl, sym, ap, Option, none, some, pos, if◌then◌else◌, arith,
  Bool-cases, inl, inr, str_eq, eq_iff,
}
use vibechat.Exec.{err}
use vibechat.Domain.Errors.{driver}
use vibechat.Domain.User.{User, UserRepository, online}
use vibechat.Cache.Mock.{
  MockCache, new, set, get, at_time, delete_expired, is_over, missing, expired,
}
use vibechat.Cache.Mock.Laws
use vibechat.Cache.Mock.Laws.{mock, peek, mock-IsCache}
use vibechat.Storage.Cached.{Codec, IsCodec}
use vibechat.Storage.Connection.{World, remote}
use vibechat.Storage.Postgres.User as Postgres
use vibechat.Storage.Cached.User.Coherent.{without_hash}
use vibechat.Storage.Cached.User.Coherent
use vibechat.Storage.Cached.User.{user_repository}
use vibechat.Storage.Cached.User.History
use vibechat.Storage.Cached.User.History.{
  Reach, call, start, aged, gets_by_id, updates_status, after,
}
use vibechat.Storage.Cached.User.Origin.{user_repository-IsUserStore}
use vibechat.Tests.Data.{col, world, account}

-- An id printed with as many signs as its number.
show : ℕ → String
show zero = ""
show (suc n) = cons "i" (show n)

String-discrete : Discrete String
String-discrete s t = elim (Bool-cases (str_eq s t)) [
  | inl e ↦ Dec.yes ((eq_iff s t).0 e)
  | inr e ↦ Dec.no (λ p. let e' = (eq_iff s t).1 p in absurd (cc))
]

User-discrete : Discrete User
User-discrete = hlevel (ℕ_discrete, String-discrete)

abbrev ann : User
ann = (account 1 "ann" "ann@example.com").user

encode : {P : Type 0} → Dec P → Option String
encode (Dec.yes e) = some "ann"
encode (Dec.no n) = none

-- A codec for the account of Ann: every other user cannot be encoded.
abbrev codec : Codec User
codec = record {
  marshal = λ u. encode (User-discrete (without_hash u) (without_hash ann));
  unmarshal = λ raw. if str_eq raw "ann" then some (without_hash ann) else none;
}

decoded_back :
    (u : User) (d : Dec (without_hash u ≡ without_hash ann)) {raw : String}
    → encode d ≡ some raw
    → codec.unmarshal raw ≡ some (without_hash u)
unfolding encode
decoded_back u (Dec.yes e) h =
    subst (λ raw. codec.unmarshal raw ≡ some (without_hash u)) (some-injective _ _ h)
      (ap some (sym e))
decoded_back u (Dec.no n) h = absurd (cc)

codec-IsCodec : IsCodec codec without_hash
codec-IsCodec = record {
  unmarshal-marshal = λ u h. decoded_back u (User-discrete (without_hash u) (without_hash ann)) h;
}

show_injective : (a b : ℕ) → show a ≡ show b → a ≡ b
unfolding show
show_injective zero zero h = refl
show_injective zero (suc b) h = absurd (cc)
show_injective (suc a) zero h = absurd (cc)
show_injective (suc a) (suc b) h = ap suc (show_injective a b (cc))

abbrev repo : UserRepository (World × MockCache)
repo = user_repository show codec (Postgres.user_repository remote col) mock (pos 300)

-- Ann is looked up, she comes online, and is looked up again.
abbrev steps : World × MockCache
steps =
    after repo (gets_by_id 1)
      (after repo (updates_status 1 online 50) (after repo (gets_by_id 1) (world, new 9)))

get_by_id-current_example :
    Coherent.Answers
      (pos 300)
      show_injective
      codec-IsCodec
      (user_repository-IsUserStore col)
      mock-IsCache
      1
      steps.0
      (repo.get_by_id 1 (steps.0, steps.1)).0
unfolding new peek
get_by_id-current_example =
    History.get_by_id-current (pos 300) show_injective codec-IsCodec
      (user_repository-IsUserStore col) mock-IsCache world (new 9) (λ key. refl) steps.0 steps.1
      (call (gets_by_id 1) (call (updates_status 1 online 50) (call (gets_by_id 1) start))) 1

lifetime_example :
    (get "user:1" (at_time 20 (set "user:1" "ann" (pos 10) (new 9)).1)).0 ≡ err (driver expired)
unfolding new
lifetime_example = Laws.lifetime "user:1" "ann" 9 20 (new 9)

-- The entry is over when the sweep runs.
delete_expired_lem_example :
    ((get "user:1"
        (at_time 30 (delete_expired (at_time 20 (set "user:1" "ann" (pos 10) (new 9)).1)))).0
      ≡ err (driver missing))
    × ((get "user:1" (at_time 30 (at_time 20 (set "user:1" "ann" (pos 10) (new 9)).1))).0
        ≡ err (driver expired))
unfolding set new is_over
delete_expired_lem_example =
    Laws.delete_expired_lem (at_time 20 (set "user:1" "ann" (pos 10) (new 9)).1) 30 "user:1"
      (omega arith)
