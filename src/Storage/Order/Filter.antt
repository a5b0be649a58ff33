-- ===== src/Storage/Order/Filter.antt =====
-- ORDER BY and WHERE: the order in which they are taken does not matter.
use vibechat.Prelude.{
  ◌≡◌, refl, sym, ap, ◌∙◌, Bool, true, false, ◌&&◌, List, [], ◌∷◌, where_, All, All-map, Bool-cases,
  inl, inr,
}
use vibechat.Storage.Order.{insert, order_by, All-insert}

pub where-and {ℓ} :
    {A : Type ℓ} (p q : A → Bool) (xs : List A)
    → where_ (λ x. p x && q x) xs ≡ where_ q (where_ p xs)
where-and p q [] = refl
where-and p q (x ∷ xs) = elim (Bool-cases (p x)) [
  | inr e ↦ rw e (where-and p q xs)
  | inl e ↦ elim (Bool-cases (q x)) [
    | inl f ↦ rw (e, f) (ap (◌∷◌ x) (where-and p q xs))
    | inr f ↦ rw (e, f) (where-and p q xs)
  ]
]

-- Each entry comes before all that follow.
abbrev pub Sorted {ℓ} : {A : Type ℓ} → (A → A → Bool) → List A → Type ℓ
Sorted before [] = Unit
Sorted before (x ∷ xs) = All (λ y. before x y ≡ true) xs × Sorted before xs

-- An order that compares any two entries.
pub record IsOrder {ℓ} {A : Type ℓ} (before : A → A → Bool) : Type ℓ where
  pub trans : (x y z : A) → before x y ≡ true → before y z ≡ true → before x z ≡ true
  pub total : (x y : A) → before x y ≡ false → before y x ≡ true

module _ {ℓ} {A : Type ℓ} (before : A → A → Bool) (o : IsOrder before) where
  -- what comes before the first entry comes before all
  All-before :
      (x y : A) (ys : List A)
      → before x y ≡ true
      → All (λ z. before y z ≡ true) ys
      → All (λ z. before x z ≡ true) ys
  All-before x y ys e a = All-map ys (λ z f. o.trans x y z e f) a

  Sorted-insert : (x : A) (xs : List A) → Sorted before xs → Sorted before (insert before x xs)
  unfolding insert
  Sorted-insert x [] s = (tt, tt)
  Sorted-insert x (y ∷ ys) s = elim (Bool-cases (before x y)) [
    | inl e ↦ rw e ((e, All-before x y ys e s.0), s)
    | inr e ↦ rw e (
      All-insert before (λ z. before y z ≡ true) x ys (o.total x y e) s.0,
      Sorted-insert x ys s.1,
    )
  ]

  pub Sorted-order_by : (xs : List A) → Sorted before (order_by before xs)
  unfolding order_by
  Sorted-order_by [] = tt
  Sorted-order_by (x ∷ xs) = Sorted-insert x (order_by before xs) (Sorted-order_by xs)

  module _ (p : A → Bool) where
    where-insert_out :
        (x : A) (ys : List A) → p x ≡ false → where_ p (insert before x ys) ≡ where_ p ys
    unfolding insert
    where-insert_out x [] e = rw e refl
    where-insert_out x (y ∷ ys) e = elim (Bool-cases (before x y)) [
      | inl f ↦ rw (f, e) refl
      | inr f ↦ elim (Bool-cases (p y)) [
        | inl g ↦ rw (f, g) (ap (◌∷◌ y) (where-insert_out x ys e))
        | inr g ↦ rw (f, g) (where-insert_out x ys e)
      ]
    ]

    -- a new first entry goes in front
    insert-front :
        (x : A) (ys : List A)
        → All (λ z. before x z ≡ true) ys
        → insert before x (where_ p ys) ≡ x ∷ where_ p ys
    unfolding insert
    insert-front x [] a = refl
    insert-front x (y ∷ ys) a = elim (Bool-cases (p y)) [
      | inl g ↦ rw (g, a.0) refl
      | inr g ↦ rw g (insert-front x ys a.1)
    ]

    where-insert_in :
        (x : A) (ys : List A)
        → Sorted before ys
        → p x ≡ true
        → where_ p (insert before x ys) ≡ insert before x (where_ p ys)
    unfolding insert
    where-insert_in x [] s e = rw e refl
    where-insert_in x (y ∷ ys) s e = elim (Bool-cases (before x y)) [
      | inl f ↦ (rw (f, e) refl) ∙ sym (insert-front x (y ∷ ys) (f, All-before x y ys f s.0))
      | inr f ↦ elim (Bool-cases (p y)) [
        | inl g ↦ rw (f, g) (rw f (ap (◌∷◌ y) (where-insert_in x ys s.1 e)))
        | inr g ↦ rw (f, g) (where-insert_in x ys s.1 e)
      ]
    ]

    pub where-order_by :
        (xs : List A) → order_by before (where_ p xs) ≡ where_ p (order_by before xs)
    unfolding order_by
    where-order_by [] = refl
    where-order_by (x ∷ xs) = elim (Bool-cases (p x)) [
      | inl e ↦ rw e (
          ap (insert before x) (where-order_by xs)
          ∙ sym (where-insert_in x (order_by before xs) (Sorted-order_by xs) e))
      | inr e ↦ rw e (where-order_by xs ∙ sym (where-insert_out x (order_by before xs) e))
    ]
