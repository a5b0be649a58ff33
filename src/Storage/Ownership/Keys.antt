-- ===== src/Storage/Ownership/Keys.antt =====
-- The keys of `chat_members` under the statements: rows of other keys are found as before, and keys
-- stay distinct.
use vibechat.Prelude.{
  ◌≤◌, Bool, true, false, not, ◌≡◌, ◌≢◌, refl, List, [], ◌∷◌, none, some, find_first, where_,
  update_where, arith, Bool-cases, inl, inr,
}
use vibechat.Domain.User.{Uuid}
use vibechat.Domain.Chat.{MemberRole, is_owner}
use vibechat.Storage.Tables.{MemberRow}
use vibechat.Storage.Sql.Chats.{is_row_of}
use vibechat.Storage.Ownership.Rows.{
  owners, weight, Distinct, with_role, owners-cons, owners-delete, head_weight,
}

module _ (c u : Uuid) where
  abbrev match : MemberRow → Bool
  match = is_row_of c u

  absent_delete :
      (k v : Uuid) (rs : List MemberRow)
      → find_first (is_row_of k v) rs ≡ none
      → find_first (is_row_of k v) (where_ (λ x. not (match x)) rs) ≡ none
  absent_delete k v [] h = refl
  absent_delete k v (x ∷ rs) h = ground (arith, absent_delete k v rs)

  pub Distinct-delete :
      (rs : List MemberRow) → Distinct rs → Distinct (where_ (λ x. not (match x)) rs)
  Distinct-delete [] h = tt
  Distinct-delete (x ∷ rs) h = elim (Bool-cases (match x)) [
    | inl e ↦ rw e (Distinct-delete rs h.1)
    | inr e ↦ rw e (absent_delete x.chat_id x.user_id rs h.0, Distinct-delete rs h.1)
  ]

  module _ (new : MemberRole) where
    -- the key of a row does not change
    absent_set :
        (k v : Uuid) (rs : List MemberRow)
        → find_first (is_row_of k v) rs ≡ none
        → find_first (is_row_of k v) (update_where match (with_role new) rs) ≡ none
    unfolding is_row_of
    absent_set k v [] h = refl
    absent_set k v (x ∷ rs) h = ground (arith, absent_set k v rs)

    pub Distinct-set :
        (rs : List MemberRow) → Distinct rs → Distinct (update_where match (with_role new) rs)
    Distinct-set [] h = tt
    Distinct-set (x ∷ rs) h = elim (Bool-cases (match x)) [
      | inl e ↦ rw e (absent_set x.chat_id x.user_id rs h.0, Distinct-set rs h.1)
      | inr e ↦ rw e (absent_set x.chat_id x.user_id rs h.0, Distinct-set rs h.1)
    ]

    -- the row of another user of the chat is found as before
    pub find-set_ne :
        (v : Uuid) (rs : List MemberRow)
        → u ≢ v
        → find_first (is_row_of c v) (update_where match (with_role new) rs)
          ≡ find_first (is_row_of c v) rs
    unfolding is_row_of
    find-set_ne v [] h = refl
    find-set_ne v (x ∷ rs) h = ground (arith, find-set_ne v rs)

  pub find-delete_ne :
      (v : Uuid) (rs : List MemberRow)
      → u ≢ v
      → find_first (is_row_of c v) (where_ (λ x. not (match x)) rs) ≡ find_first (is_row_of c v) rs
  unfolding is_row_of
  find-delete_ne v [] h = refl
  find-delete_ne v (x ∷ rs) h = ground (arith, find-delete_ne v rs)

-- A row that is there adds to the count.
pub weight-le-owners :
    (c u : Uuid) (rs : List MemberRow) {r : MemberRow}
    → find_first (is_row_of c u) rs ≡ some r
    → weight c c r.role ≤ owners c rs
weight-le-owners c u [] f = cc
weight-le-owners c u (x ∷ rs) f = elim (Bool-cases (is_row_of c u x)) [
  | inl e ↦ omega (arith, owners-cons c x rs, head_weight c u c x rs f e)
  | inr e ↦ omega (arith, owners-cons c x rs, weight-le-owners c u rs (rw e at f))
]

-- With one owner, nobody but the owner is an owner.
pub other_is_no_owner :
    (c u v : Uuid) (rs : List MemberRow) {r s : MemberRow}
    → Distinct rs
    → owners c rs ≡ 1
    → u ≢ v
    → find_first (is_row_of c u) rs ≡ some r
    → find_first (is_row_of c v) rs ≡ some s
    → is_owner r.role ≡ true
    → is_owner s.role ≡ false
unfolding weight
other_is_no_owner c u v rs {r} {s} d one ne fr fs own =
    let a = owners-delete c u c rs d fr in
    let rest = where_ (λ x. not (is_row_of c u x)) rs in
    let kept : find_first (is_row_of c v) rest ≡ some s = rw (find-delete_ne c u v rs ne) fs in
    let b = weight-le-owners c v rest kept in ground arith
