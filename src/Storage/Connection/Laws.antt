-- ===== src/Storage/Connection/Laws.antt =====
-- What the repositories rely on: a statement runs as the action on the tables, and a transaction
-- runs as its body does, all of it or nothing. Both handles of `Connection` do.
use vibechat.Prelude.{◌≡◌, refl, inl, inr, Option-cases}
use vibechat.Exec.{Result, ok, err, Exec, pure, resume, ◌>>=◌, ◌>>◌}
use vibechat.Exec.Runs.{Outcome, Runs}
use vibechat.Exec.Tx.{TxOutcome, RunsTx, RunsTx-of-Runs, RunsTx-bind, RunsTx-pure}
use vibechat.Storage.Tables.{Db}
use vibechat.Storage.Connection.{
  Connection, World, atomic, statement, session, in_transaction, remote, rollback, keep,
}

pub record IsConnection {S : Type 0} (conn : Connection S) (view : S → Db) (Inv : S → Type 0)
    : Type 1 where
  pub exec-Runs : {A : Type 0} (m : Exec Db A) → Runs view Inv (conn.exec A m) m
  pub transaction-Runs :
      {A : Type 0} (m : Exec S A) (spec : Exec Db A)
      → RunsTx view Inv m spec
      → Runs view Inv (conn.transaction A m) (atomic A spec)

abbrev pub Any : World → Type 0
Any w = Unit

abbrev pub shown : World → Db
shown w = w.db

statement-Runs : {A : Type 0} (m : Exec Db A) → Runs shown Any (statement A m) m
unfolding statement
statement-Runs {A} m = record {
  at = λ w _. elim (Option-cases (w.faults w.sent)) [
    | inl e ↦ (tt, Outcome.follows (rw (statement, e)) (rw (statement, e)))
    | inr (n, e) ↦ (tt, Outcome.faulted n (rw (statement, e)) (rw (statement, e)))
  ];
}

-- The body between BEGIN and COMMIT, on the tables.
abbrev enclosed : (A : Type 0) → Exec Db A → Exec Db A
enclosed A m = do pure tt; a ← m; pure tt; pure a

pure-then : {A : Type 0} (r : Result A) (d : Db) → resume r (λ a. pure tt >> pure a) d ≡ (r, d)
unfolding ◌>>=◌
pure-then (ok a) d = refl
pure-then (err e) d = refl

enclosed_lem : {A : Type 0} (m : Exec Db A) (d : Db) → enclosed A m d ≡ m d
unfolding ◌>>=◌
enclosed_lem m d = pure-then (m d).0 (m d).1

session-RunsTx :
    {A : Type 0} (m : Exec World A) (spec : Exec Db A)
    → RunsTx shown Any m spec
    → RunsTx shown Any (session A m) (enclosed A spec)
unfolding session
session-RunsTx m spec r =
    RunsTx-bind _ _ _ _ edge
      λ _. RunsTx-bind _ _ _ _ r λ a. RunsTx-bind _ _ _ _ edge λ _. RunsTx-pure a
  where
    edge : RunsTx shown Any (statement (Unit {0}) (pure tt)) (pure tt)
    edge = RunsTx-of-Runs _ _ (statement-Runs (pure tt))

rolled_back :
    {A : Type 0} (w w' : World) (r : Result A) (want : Result A × Db)
    → TxOutcome shown (r, w') want
    → Outcome shown w (rollback w (r, w')) (keep w.db want)
rolled_back w w' (ok a) want (TxOutcome.stopped n e) = absurd (cc)
rolled_back w w' (err x) want (TxOutcome.stopped n e) = Outcome.faulted n e refl
rolled_back w w' (ok a) (ok b, d) (TxOutcome.follows e v) = Outcome.follows e v
rolled_back w w' (ok a) (err b, d) (TxOutcome.follows e v) = absurd (cc)
rolled_back w w' (err a) (ok b, d) (TxOutcome.follows e v) = absurd (cc)
rolled_back w w' (err a) (err b, d) (TxOutcome.follows e v) = Outcome.follows e refl

in_transaction-Runs :
    {A : Type 0} (m : Exec World A) (spec : Exec Db A)
    → RunsTx shown Any m spec
    → Runs shown Any (in_transaction A m) (atomic A spec)
unfolding in_transaction atomic
in_transaction-Runs {A} m spec r = record {
  at = λ w _. (
    tt,
    rolled_back w (session A m w).1 (session A m w).0 (spec w.db)
        (rw (enclosed_lem spec w.db) at ((session-RunsTx m spec r).at w tt).1),
  );
}

-- The handle behind a network, whatever the faults.
pub remote-IsConnection : IsConnection remote shown Any
unfolding statement in_transaction
remote-IsConnection = record { exec-Runs = statement-Runs; transaction-Runs = in_transaction-Runs }
