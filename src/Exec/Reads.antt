-- ===== src/Exec/Reads.antt =====
-- Actions that change nothing.
use vibechat.Prelude.{Bool, true, false, ◌≡◌, refl, ◌∙◌}
use vibechat.Domain.Errors.{Error}
use vibechat.Exec.{Result, ok, err, Exec, pure, raise, lift, try, guard, resume, ◌>>=◌}
use vibechat.Exec.Runs.{Reads}

module _ {κ μ} {D : Type κ} {A : Type μ} where
  pub Reads-pure : (a : A) → Reads {D = D} (pure a)
  unfolding pure
  Reads-pure a = record { same = λ d. refl }

  pub Reads-raise : (e : Error) → Reads {D = D} {A = A} (raise e)
  unfolding raise
  Reads-raise e = record { same = λ d. refl }

  pub Reads-lift : (r : Result A) → Reads {D = D} (lift r)
  unfolding lift
  Reads-lift r = record { same = λ d. refl }

  pub Reads-try : (m : Exec D A) → Reads m → Reads (try m)
  unfolding try
  Reads-try m r = record { same = λ d. r.same d }

module _ {κ} {D : Type κ} where
  pub Reads-guard : (b : Bool) (e : Error) → Reads {D = D} (guard b e)
  unfolding guard
  Reads-guard true e = Reads-pure tt
  Reads-guard false e = Reads-raise e

module _ {κ μ ν} {D : Type κ} {A : Type μ} {B : Type ν} where
  resume-same :
      (r : Result A) (d' d : D) (f : A → Exec D B)
      → d' ≡ d
      → ((a : A) → Reads (f a))
      → (resume r f d').1 ≡ d
  resume-same (ok a) d' d f e rf = (rf a).same d' ∙ e
  resume-same (err x) d' d f e rf = e

  pub Reads-bind :
      (m : Exec D A) (f : A → Exec D B) → Reads m → ((a : A) → Reads (f a)) → Reads (m >>= f)
  unfolding ◌>>=◌
  Reads-bind m f r rf = record { same = λ d. resume-same (m d).0 (m d).1 d f (r.same d) rf }

  pub Reads-bind-lift : (m : Exec D A) (c : A → Result B) → Reads m → Reads (m >>= λ a. lift (c a))
  Reads-bind-lift m c r = Reads-bind m _ r (λ a. Reads-lift (c a))
