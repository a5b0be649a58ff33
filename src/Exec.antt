-- ===== src/Exec.antt =====
-- Go methods that return `(T, error)` and change state. What was written before an error stays
-- written, so the state comes back beside the error too.
pub mod Runs
pub mod Reads
pub mod Stays
pub mod Steps
pub mod Tx
use vibechat.Prelude.{Bool, ◌≡◌, refl, ap, if◌then◌else◌}
use vibechat.Domain.Errors.{Error}

pub data Result {ℓ} (A : Type ℓ) : Type ℓ where
  ok : A → Result A
  err : Error → Result A

abbrev pub Exec {ℓ κ} : Type ℓ → Type κ → Type (ℓ ⊔ κ)
Exec S A = S → Result A × S

module _ {ℓ κ} {S : Type ℓ} {A : Type κ} where
  unfoldable pub pure : A → Exec S A
  pure a s = (ok a, s)

  -- `return err`
  unfoldable pub raise : Error → Exec S A
  raise e s = (err e, s)

  -- A pure check that may fail.
  unfoldable pub lift : Result A → Exec S A
  lift r s = (r, s)

  -- The error of a call as a value, for code that looks at it and goes on.
  unfoldable pub try : Exec S A → Exec S (Result A)
  try m s = let (r, s') = m s in (ok r, s')

module _ {ℓ κ μ} {S : Type ℓ} {A : Type κ} {B : Type μ} where
  abbrev pub resume : Result A → (A → Exec S B) → Exec S B
  resume (ok a) f s = f a s
  resume (err e) f s = (err e, s)

  infixl 5 ◌>>=◌
  -- `if err != nil { return err }` after every call. Opening it opens the actions above.
  unfoldable pub ◌>>=◌ : Exec S A → (A → Exec S B) → Exec S B
  unfolding pure raise lift try
  ◌>>=◌ m f s = let (r, s') = m s in resume r f s'

infixl 5 ◌>>◌
abbrev pub ◌>>◌ {ℓ κ} : {S : Type ℓ} {B : Type κ} → Exec S (Unit {0}) → Exec S B → Exec S B
m >> n = m >>= λ _. n

-- `if !ok { return e }`
unfoldable pub guard {ℓ} : {S : Type ℓ} → Bool → Error → Exec S (Unit {0})
guard b e = if b then pure tt else raise e

state-resume-lift {ℓ κ μ} :
    {S : Type ℓ} {A : Type κ} {B : Type μ} (r : Result A) (c : A → Result B) (s : S)
    → (resume r (λ a. lift (c a)) s).1 ≡ s
unfolding lift
state-resume-lift (ok a) c s = refl
state-resume-lift (err e) c s = refl

-- A check after a call leaves the state to the call.
pub state-bind-lift {ℓ κ μ} :
    {S : Type ℓ} {A : Type κ} {B : Type μ} (m : Exec S A) (c : A → Result B) (s : S)
    → ((m >>= λ a. lift (c a)) s).1 ≡ (m s).1
unfolding ◌>>=◌
state-bind-lift m c s = state-resume-lift (m s).0 c (m s).1

resume-eq-ok {ℓ κ μ} :
    {S : Type ℓ} {A : Type κ} {B : Type μ} (r : Result A) (f : A → Exec S B) (s' t : S) {b : B}
    → resume r f s' ≡ (ok b, t)
    → (a : A) × (r ≡ ok a) × (f a s' ≡ (ok b, t))
resume-eq-ok (ok a) f s' t h = (a, refl, h)
resume-eq-ok (err e) f s' t h = let h' : err e ≡ ok _ = ap (λ p. p.0) h in absurd (cc)

-- A call after which the code went on has ended well.
pub bind-eq-ok {ℓ κ μ} :
    {S : Type ℓ} {A : Type κ} {B : Type μ} (m : Exec S A) (f : A → Exec S B) (s t : S) {b : B}
    → (m >>= f) s ≡ (ok b, t)
    → (a : A) × ((m s).0 ≡ ok a) × (f a (m s).1 ≡ (ok b, t))
unfolding ◌>>=◌
bind-eq-ok m f s t h = resume-eq-ok (m s).0 f (m s).1 t h
