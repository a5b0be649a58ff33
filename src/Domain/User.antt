-- ===== src/Domain/User.antt =====
-- internal/domain/user.go: accounts and the interface of their storage.
-- A uuid is its 128-bit value and `uuid.Nil` is 0. A time is the number of microseconds since the
-- zero value of time.Time, the beginning of the year 1: it is one that a column of the databases holds.
-- The nanoseconds of time.Now(), which storing drops, are left out from the start.
use vibechat.Prelude.{ℕ, String, List}
use vibechat.Exec.{Exec}

abbrev pub Uuid : Type 0
Uuid = ℕ

abbrev pub nil_uuid : Uuid
nil_uuid = 0

abbrev pub Time : Type 0
Time = ℕ

-- The beginning of 1970.
abbrev pub epoch : Time
epoch = 62135596800000000

abbrev pub zero_time : Time
zero_time = 0

-- `unset` is the zero value "", of an account that is read without its status.
pub data UserStatus : Type 0 where
  unset online offline away : UserStatus

pub record User : Type 0 where
  pub id : Uuid
  pub username : String
  pub email : String
  pub password_hash : String
  pub avatar_url : String
  pub bio : String
  pub status : UserStatus
  pub last_seen : Time
  pub created_at : Time
  pub updated_at : Time

-- `UserRepository`, as actions on a state `S` that the implementation chooses.
pub record UserRepository (S : Type 0) : Type 0 where
  pub create : User → Exec S (Unit {0})
  pub get_by_id : Uuid → Exec S User
  pub get_by_email : String → Exec S User
  pub get_by_username : String → Exec S User
  pub update : User → Exec S (Unit {0})
  pub update_status : Uuid → UserStatus → Time → Exec S (Unit {0})
  pub search : String → ℕ → ℕ → Exec S (List User)
  pub delete : Uuid → Exec S (Unit {0})
