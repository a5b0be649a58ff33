-- ===== src/Exec/Stays.antt =====
-- A property of the state that is still there after an action: a read leaves the state alone, and
-- of two steps each has to be looked at.
use mathlib.Core.Path.{subst}
use vibechat.Prelude.{sym}
use vibechat.Exec.{Result, ok, err, Exec, resume, ◌>>=◌}
use vibechat.Exec.Runs.{Reads}

module _ {ℓ κ μ} {S : Type ℓ} (P : S → Type κ) {A : Type μ} where
  abbrev pub Stays : Exec S A → Type (ℓ ⊔ κ)
  Stays m = (s : S) → P s → P (m s).1

  pub Stays-read : (m : Exec S A) → Reads m → Stays m
  Stays-read m r s p = subst P (sym (r.same s)) p

module _ {ℓ κ μ ν} {S : Type ℓ} (P : S → Type κ) {A : Type μ} {B : Type ν} where
  after_result :
      (out : Result A × S) (f : A → Exec S B)
      → P out.1
      → ((a : A) → Stays P (f a))
      → P (resume out.0 f out.1).1
  after_result (ok a, t) f p k = k a t p
  after_result (err e, t) f p k = p

  pub Stays-steps :
      (m : Exec S A) (f : A → Exec S B) → Stays P m → ((a : A) → Stays P (f a)) → Stays P (m >>= f)
  unfolding ◌>>=◌
  Stays-steps m f first later s p = after_result (m s) f (first s p) later
