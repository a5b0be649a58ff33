-- ===== src/Exec/Runs.antt =====
-- A detailed action against a specification. `m` runs as `spec` when each call of it either stops
-- with an error of the driver and shows no change, or returns what `spec` returns and shows the
-- change that `spec` makes. `view` says what is shown, and `Inv` is what the detailed state keeps.
use vibechat.Prelude.{ℕ, ◌≡◌, refl, ◌∙◌, Bool, true, false, if◌then◌else◌}
use mathlib.Core.Path.{subst}
use vibechat.Domain.Errors.{Error, driver}
use vibechat.Exec.{Result, ok, err, Exec, pure, raise, lift, try, guard, resume, ◌>>=◌}

pub data Outcome {ℓ κ μ} {S : Type ℓ} {D : Type κ} {A : Type μ} (view : S → D) (s : S)
    (out : Result A × S) (want : Result A × D) : Type (ℓ ⊔ κ ⊔ μ) where
  faulted : (n : ℕ) → out.0 ≡ err (driver n) → view out.1 ≡ view s → Outcome view s out want
  follows : out.0 ≡ want.0 → view out.1 ≡ want.1 → Outcome view s out want

pub record Runs {ℓ κ μ} {S : Type ℓ} {D : Type κ} {A : Type μ} (view : S → D) (Inv : S → Type ℓ)
    (m : Exec S A) (spec : Exec D A) : Type (ℓ ⊔ κ ⊔ μ) where
  pub at : (s : S) → Inv s → Inv (m s).1 × Outcome view s (m s) (spec (view s))

-- A specification that only reads.
pub record Reads {κ μ} {D : Type κ} {A : Type μ} (spec : Exec D A) : Type (κ ⊔ μ) where
  pub same : (d : D) → (spec d).1 ≡ d

module _ {ℓ κ μ} {S : Type ℓ} {D : Type κ} {A : Type μ} {view : S → D} {Inv : S → Type ℓ} where
  pub Runs-pure : (a : A) → Runs view Inv (pure a) (pure a)
  unfolding pure
  Runs-pure a = record { at = λ s h. (h, Outcome.follows refl refl) }

  pub Runs-raise : (e : Error) → Runs view Inv (raise {A = A} e) (raise e)
  unfolding raise
  Runs-raise e = record { at = λ s h. (h, Outcome.follows refl refl) }

  pub Runs-lift : (r : Result A) → Runs view Inv (lift r) (lift r)
  unfolding lift
  Runs-lift r = record { at = λ s h. (h, Outcome.follows refl refl) }

  pub Runs-if :
      (b : Bool) (m n : Exec S A) (m' n' : Exec D A)
      → Runs view Inv m m'
      → Runs view Inv n n'
      → Runs view Inv (if b then m else n) (if b then m' else n')
  Runs-if true m n m' n' hm hn = hm
  Runs-if false m n m' n' hm hn = hn

module _ {ℓ κ} {S : Type ℓ} {D : Type κ} {view : S → D} {Inv : S → Type ℓ} where
  pub Runs-guard : (b : Bool) (e : Error) → Runs view Inv (guard b e) (guard b e)
  unfolding guard
  Runs-guard b e = Runs-if b _ _ _ _ (Runs-pure tt) (Runs-raise e)

-- From a state that shows the same.
Outcome-from {ℓ κ μ} :
    {S : Type ℓ} {D : Type κ} {B : Type μ} {view : S → D} (s t : S) {out : Result B × S}
    {want : Result B × D}
    → view t ≡ view s
    → Outcome view t out want
    → Outcome view s out want
Outcome-from s t e (Outcome.faulted n r v) = Outcome.faulted n r (v ∙ e)
Outcome-from s t e (Outcome.follows r v) = Outcome.follows r v

check-lift {ℓ κ μ ν} :
    {S : Type ℓ} {D : Type κ} {A : Type μ} {B : Type ν} {view : S → D} (Inv : S → Type ℓ) (s s' : S)
    (r : Result A) (want : Result A × D) (c : A → Result B)
    → Inv s'
    → Outcome view s (r, s') want
    → Inv (resume r (λ a. lift (c a)) s').1
      × Outcome view s (resume r (λ a. lift (c a)) s') (resume want.0 (λ a. lift (c a)) want.1)
unfolding lift
check-lift Inv s s' r want c h (Outcome.faulted n e v) = rw e (h, Outcome.faulted n refl v)
check-lift Inv s s' (ok a) want c h (Outcome.follows e v) = rw (← e) (h, Outcome.follows refl v)
check-lift Inv s s' (err x) want c h (Outcome.follows e v) = rw (← e) (h, Outcome.follows refl v)

module _ {ℓ κ μ ν} {S : Type ℓ} {D : Type κ} {A : Type μ} {B : Type ν} {view : S → D}
    {Inv : S → Type ℓ} where
  resume-read :
      (s : S) (r : Result A) (s' : S) (f : A → Exec S B) (g : A → Exec D B)
      → Inv s'
      → view s' ≡ view s
      → ((a : A) → Runs view Inv (f a) (g a))
      → Inv (resume r f s').1 × Outcome view s (resume r f s') (resume r g (view s))
  resume-read s (ok a) s' f g h e rf =
      let (k, o) = (rf a).at s' h in
      (k, Outcome-from s s' e (subst (λ d. Outcome view s' (f a s') (g a d)) e o))
  resume-read s (err e) s' f g h v rf = (h, Outcome.follows refl v)

  bind-read :
      (s s' : S) (r : Result A) (want : Result A × D) (f : A → Exec S B) (g : A → Exec D B)
      → Inv s'
      → want.1 ≡ view s
      → Outcome view s (r, s') want
      → ((a : A) → Runs view Inv (f a) (g a))
      → Inv (resume r f s').1 × Outcome view s (resume r f s') (resume want.0 g want.1)
  bind-read s s' r want f g h same (Outcome.faulted n e v) rf = rw e (h, Outcome.faulted n refl v)
  bind-read s s' r want f g h same (Outcome.follows e v) rf =
      rw (← e, same) (resume-read s r s' f g h (v ∙ same) rf)

  -- After a call that only reads comes anything that runs as specified.
  pub Runs-bind :
      (m : Exec S A) (f : A → Exec S B) (m' : Exec D A) (g : A → Exec D B)
      → Runs view Inv m m'
      → Reads m'
      → ((a : A) → Runs view Inv (f a) (g a))
      → Runs view Inv (m >>= f) (m' >>= g)
  unfolding ◌>>=◌
  Runs-bind m f m' g rm read rf = record {
    at = λ s h.
        let (k, o) = rm.at s h in
        bind-read s (m s).1 (m s).0 (m' (view s)) f g k (read.same (view s)) o rf;
  }

  -- After any call, a write too, comes a check of what it returned.
  pub Runs-bind-lift :
      (m : Exec S A) (c : A → Result B) (m' : Exec D A)
      → Runs view Inv m m'
      → Runs view Inv (m >>= λ a. lift (c a)) (m' >>= λ a. lift (c a))
  unfolding ◌>>=◌
  Runs-bind-lift m c m' rm = record {
    at = λ s h. let (k, o) = rm.at s h in check-lift Inv s (m s).1 (m s).0 (m' (view s)) c k o;
  }

  try-read :
      (s s' : S) (r : Result A) (want : Result A × D) (f : Result A → Exec S B)
      (g : Result A → Exec D B)
      → Inv s'
      → want.1 ≡ view s
      → Outcome view s (r, s') want
      → ((x : Result A) → Runs view Inv (f x) (g x))
      → ((n : ℕ) (t : S) → f (err (driver n)) t ≡ (err (driver n), t))
      → Inv (f r s').1 × Outcome view s (f r s') (g want.0 want.1)
  try-read s s' r want f g h same (Outcome.faulted n e v) rf stops =
      rw (e, stops n s') (h, Outcome.faulted n refl v)
  try-read s s' r want f g h same (Outcome.follows e v) rf stops =
      rw (← e, same)
        (let (k, o) = (rf r).at s' h in
          (
            k,
            Outcome-from s s' (v ∙ same)
                (subst (λ d. Outcome view s' (f r s') (g r d)) (v ∙ same) o),
          ))

  -- Code that looks at the error of a read, and passes the driver's errors on.
  pub Runs-try :
      (m : Exec S A) (f : Result A → Exec S B) (m' : Exec D A) (g : Result A → Exec D B)
      → Runs view Inv m m'
      → Reads m'
      → ((x : Result A) → Runs view Inv (f x) (g x))
      → ((n : ℕ) (t : S) → f (err (driver n)) t ≡ (err (driver n), t))
      → Runs view Inv (try m >>= f) (try m' >>= g)
  unfolding ◌>>=◌
  Runs-try m f m' g rm read rf stops = record {
    at = λ s h.
        let (k, o) = rm.at s h in
        try-read s (m s).1 (m s).0 (m' (view s)) f g k (read.same (view s)) o rf stops;
  }

  -- After any call comes a value.
  pub Runs-bind-pure :
      (m : Exec S A) (c : A → B) (m' : Exec D A)
      → Runs view Inv m m'
      → Runs view Inv (m >>= λ a. pure (c a)) (m' >>= λ a. pure (c a))
  unfolding pure lift
  Runs-bind-pure m c m' rm = Runs-bind-lift m (λ a. ok (c a)) m' rm
