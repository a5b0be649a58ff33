-- ===== src/Storage/Connection.antt =====
-- What a repository uses of the database handle. A statement is an action on the tables; the
-- handle runs it in a state of its own, where it may fail, and runs a transaction.
pub mod Laws
use vibechat.Prelude.{ℕ, suc, Option, none, some}
use vibechat.Exec.{Result, ok, err, Exec, pure, ◌>>=◌, ◌>>◌}
use vibechat.Domain.Errors.{driver}
use vibechat.Storage.Tables.{Db}

pub record Connection (S : Type 0) : Type 1 where
  pub exec : (A : Type 0) → Exec Db A → Exec S A
  pub transaction : (A : Type 0) → Exec S A → Exec S A

-- `defer tx.Rollback`: the tables come back as they were if the body returned an error.
abbrev pub keep : {A : Type 0} → Db → Result A × Db → Result A × Db
keep d (ok a, d') = (ok a, d')
keep d (err e, d') = (err e, d)

unfoldable pub atomic : (A : Type 0) → Exec Db A → Exec Db A
atomic A m d = keep d (m d)

-- A handle that never fails on its own: the tables are the state.
abbrev pub tables : Connection Db
tables = record { exec = λ A m. m; transaction = atomic }

-- The tables behind a network. `faults` decides for the statement with each number whether it
-- fails before it takes effect, and with which error.
pub record World : Type 0 where
  pub db : Db
  pub sent : ℕ
  pub faults : ℕ → Option ℕ

unfoldable pub statement : (A : Type 0) → Exec Db A → Exec World A
statement A m w = elim (w.faults w.sent) [
  | none ↦ let (r, d) = m w.db in (r, record w { db = d; sent = suc w.sent })
  | some n ↦ (err (driver n), record w { sent = suc w.sent })
]

abbrev rollback : {A : Type 0} → World → Result A × World → Result A × World
rollback w (ok a, w') = (ok a, w')
rollback w (err e, w') = (err e, record w' { db = w.db })

-- BEGIN, the body and COMMIT.
unfoldable pub session : (A : Type 0) → Exec World A → Exec World A
session A m = do statement (Unit {0}) (pure tt); a ← m; statement (Unit {0}) (pure tt); pure a

-- BEGIN and COMMIT may fail too; any error rolls back.
unfoldable pub in_transaction : (A : Type 0) → Exec World A → Exec World A
unfolding session statement
in_transaction A m w = rollback w (session A m w)

abbrev pub remote : Connection World
remote = record { exec = statement; transaction = in_transaction }
