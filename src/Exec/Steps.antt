-- ===== src/Exec/Steps.antt =====
-- The first step of a block of calls against its specification: a check, or a read.
use vibechat.Prelude.{Bool}
use vibechat.Domain.Errors.{Error}
use vibechat.Exec.{Result, Exec, lift, guard, ◌>>◌}
use vibechat.Exec.Runs.{Runs, Runs-lift, Runs-guard, Runs-bind}
use vibechat.Exec.Reads.{Reads-lift, Reads-guard}

module _ {ℓ κ ν} {S : Type ℓ} {D : Type κ} {B : Type ν} {view : S → D} {Inv : S → Type ℓ} where
  pub after_check :
      (r : Result (Unit {0})) (f : Exec S B) (g : Exec D B)
      → Runs view Inv f g
      → Runs view Inv (lift r >> f) (lift r >> g)
  after_check r f g rf = Runs-bind _ _ _ _ (Runs-lift r) (Reads-lift r) λ _. rf

  pub after_guard :
      (b : Bool) (e : Error) (f : Exec S B) (g : Exec D B)
      → Runs view Inv f g
      → Runs view Inv (guard b e >> f) (guard b e >> g)
  after_guard b e f g rf = Runs-bind _ _ _ _ (Runs-guard b e) (Reads-guard b e) λ _. rf
