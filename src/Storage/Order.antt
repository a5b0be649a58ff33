-- ===== src/Storage/Order.antt =====
-- ORDER BY over a list of rows: insertion by a test `before`.
pub mod Filter
use vibechat.Prelude.{Bool, List, [], ◌∷◌, if◌then◌else◌, All, Bool-cases, inl, inr}

module _ {ℓ} {A : Type ℓ} (before : A → A → Bool) where
  unfoldable pub insert : A → List A → List A
  insert x [] = x ∷ []
  insert x (y ∷ ys) = let rest = insert x ys in if before x y then x ∷ y ∷ ys else y ∷ rest

  unfoldable pub order_by : List A → List A
  unfolding insert
  order_by [] = []
  order_by (x ∷ xs) = insert x (order_by xs)

  module _ {κ} (P : A → Type κ) where
    All-insert : (x : A) (xs : List A) → P x → All P xs → All P (insert x xs)
    unfolding insert
    All-insert x [] h a = (h, tt)
    All-insert x (y ∷ ys) h a = elim (Bool-cases (before x y)) [
      | inl e ↦ rw e (h, a)
      | inr e ↦ rw e (a.0, All-insert x ys h a.1)
    ]

    -- sorting adds no rows
    pub All-order_by : (xs : List A) → All P xs → All P (order_by xs)
    unfolding order_by
    All-order_by [] a = tt
    All-order_by (x ∷ xs) a = All-insert x (order_by xs) a.0 (All-order_by xs a.1)
