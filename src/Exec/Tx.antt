-- ===== src/Exec/Tx.antt =====
-- The body of a transaction against a specification: it stops with an error of the driver, showing
-- whatever it has written so far, or returns and shows what the specification does.
use vibechat.Prelude.{ℕ, ◌≡◌, refl}
use vibechat.Domain.Errors.{driver}
use vibechat.Exec.{Result, ok, err, Exec, pure, resume, ◌>>=◌}
use vibechat.Exec.Runs.{Outcome, Runs}
use mathlib.Core.Path.{subst}

pub data TxOutcome {ℓ κ μ} {S : Type ℓ} {D : Type κ} {A : Type μ} (view : S → D)
    (out : Result A × S) (want : Result A × D) : Type (ℓ ⊔ κ ⊔ μ) where
  stopped : (n : ℕ) → out.0 ≡ err (driver n) → TxOutcome view out want
  follows : out.0 ≡ want.0 → view out.1 ≡ want.1 → TxOutcome view out want

pub record RunsTx {ℓ κ μ} {S : Type ℓ} {D : Type κ} {A : Type μ} (view : S → D) (Inv : S → Type ℓ)
    (m : Exec S A) (spec : Exec D A) : Type (ℓ ⊔ κ ⊔ μ) where
  pub at : (s : S) → Inv s → Inv (m s).1 × TxOutcome view (m s) (spec (view s))

weaken {ℓ κ μ} :
    {S : Type ℓ} {D : Type κ} {A : Type μ} {view : S → D} (s : S) (out : Result A × S)
    (want : Result A × D)
    → Outcome view s out want
    → TxOutcome view out want
weaken s out want (Outcome.faulted n e v) = TxOutcome.stopped n e
weaken s out want (Outcome.follows e v) = TxOutcome.follows e v

module _ {ℓ κ μ} {S : Type ℓ} {D : Type κ} {A : Type μ} {view : S → D} {Inv : S → Type ℓ} where
  pub RunsTx-of-Runs : (m : Exec S A) (m' : Exec D A) → Runs view Inv m m' → RunsTx view Inv m m'
  RunsTx-of-Runs m m' r = record {
    at = λ s h. let (k, o) = r.at s h in (k, weaken s (m s) (m' (view s)) o);
  }

  pub RunsTx-pure : (a : A) → RunsTx view Inv (pure a) (pure a)
  unfolding pure
  RunsTx-pure a = record { at = λ s h. (h, TxOutcome.follows refl refl) }

module _ {ℓ κ μ ν} {S : Type ℓ} {D : Type κ} {A : Type μ} {B : Type ν} {view : S → D}
    {Inv : S → Type ℓ} where
  resume-tx :
      (s' : S) (r : Result A) (want : Result A × D) (f : A → Exec S B) (g : A → Exec D B)
      → Inv s'
      → TxOutcome view (r, s') want
      → ((a : A) → RunsTx view Inv (f a) (g a))
      → Inv (resume r f s').1 × TxOutcome view (resume r f s') (resume want.0 g want.1)
  resume-tx s' r want f g h (TxOutcome.stopped n e) rf = rw e (h, TxOutcome.stopped n refl)
  resume-tx s' (ok a) want f g h (TxOutcome.follows e v) rf =
      let (k, o) = (rf a).at s' h in rw (← e) (k, subst (λ d. TxOutcome view (f a s') (g a d)) v o)
  resume-tx s' (err x) want f g h (TxOutcome.follows e v) rf =
      rw (← e) (h, TxOutcome.follows refl v)

  pub RunsTx-bind :
      (m : Exec S A) (f : A → Exec S B) (m' : Exec D A) (g : A → Exec D B)
      → RunsTx view Inv m m'
      → ((a : A) → RunsTx view Inv (f a) (g a))
      → RunsTx view Inv (m >>= f) (m' >>= g)
  unfolding ◌>>=◌
  RunsTx-bind m f m' g rm rf = record {
    at = λ s h. let (k, o) = rm.at s h in resume-tx (m s).1 (m s).0 (m' (view s)) f g k o rf;
  }
