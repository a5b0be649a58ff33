-- ===== src/Storage/Ownership/Rows.antt =====
-- Counting the owners of a chat among the rows of `chat_members`.
use mathlib.Core.Path.{subst₂, ap₂}
use vibechat.Prelude.{
  ℕ, ◌+◌, Bool, true, not, ◌≡◌, refl, ap, ◌&&◌, List, [], ◌∷◌, none, some, ◌==◌, if◌then◌else◌,
  find_first, count_where, where_, update_where, arith, Bool-cases, inl, inr,
}
use vibechat.Domain.User.{Uuid}
use vibechat.Domain.Chat.{MemberRole, is_owner}
use vibechat.Storage.Tables.{MemberRow}
use vibechat.Storage.Sql.Chats.{is_row_of}

unfoldable pub is_owner_of : Uuid → MemberRow → Bool
is_owner_of c r = r.chat_id == c && is_owner r.role

unfoldable pub owners : Uuid → List MemberRow → ℕ
unfolding is_owner_of
owners c rows = count_where (is_owner_of c) rows

-- No two rows have the same chat and user: the primary key.
abbrev pub Distinct : List MemberRow → Type 0
Distinct [] = Unit
Distinct (r ∷ rs) = (find_first (is_row_of r.chat_id r.user_id) rs ≡ none) × Distinct rs

-- What one row adds to the owners of `k`.
unfoldable pub weight : Uuid → Uuid → MemberRole → ℕ
weight k c r = if k == c && is_owner r then 1 else 0

pub owners-cons :
    (k : Uuid) (r : MemberRow) (rs : List MemberRow)
    → owners k (r ∷ rs) ≡ weight k r.chat_id r.role + owners k rs
unfolding owners weight
owners-cons k r rs = ground arith

is_row_of_iff :
    (c u : Uuid) (r : MemberRow) → is_row_of c u r ≡ true → (r.chat_id ≡ c) × (r.user_id ≡ u)
unfolding is_row_of
is_row_of_iff c u r h = ground arith

-- Rows that do not match stay as they are.
where_absent :
    (c u : Uuid) (rs : List MemberRow)
    → find_first (is_row_of c u) rs ≡ none
    → where_ (λ r. not (is_row_of c u r)) rs ≡ rs
where_absent c u [] h = refl
where_absent c u (r ∷ rs) h = elim (Bool-cases (is_row_of c u r)) [
  | inl e ↦ absurd (ground arith)
  | inr e ↦ rw e (ap (◌∷◌ r) (where_absent c u rs (rw e at h)))
]

update_absent :
    (c u : Uuid) (f : MemberRow → MemberRow) (rs : List MemberRow)
    → find_first (is_row_of c u) rs ≡ none
    → update_where (is_row_of c u) f rs ≡ rs
update_absent c u f [] h = refl
update_absent c u f (r ∷ rs) h = elim (Bool-cases (is_row_of c u r)) [
  | inl e ↦ absurd (ground arith)
  | inr e ↦ rw e (ap (◌∷◌ r) (update_absent c u f rs (rw e at h)))
]

abbrev pub with_role : MemberRole → MemberRow → MemberRow
with_role new r = record r { role = new }

module _ (c u : Uuid) where
  abbrev match : MemberRow → Bool
  match = is_row_of c u

  tail_absent :
      (x : MemberRow) (rs : List MemberRow)
      → Distinct (x ∷ rs)
      → match x ≡ true
      → find_first match rs ≡ none
  tail_absent x rs h e =
      let (ec, eu) = is_row_of_iff c u x e in
      subst₂ (λ a b. find_first (is_row_of a b) rs ≡ none) ec eu h.0

  -- A matching row in front is the one that is found.
  found_head :
      (x : MemberRow) (rs : List MemberRow) {r : MemberRow}
      → find_first match (x ∷ rs) ≡ some r
      → match x ≡ true
      → x ≡ r
  found_head x rs f e = let f' : some x ≡ some _ = (rw e at f) in cc

  pub head_weight :
      (k : Uuid) (x : MemberRow) (rs : List MemberRow) {r : MemberRow}
      → find_first match (x ∷ rs) ≡ some r
      → match x ≡ true
      → weight k x.chat_id x.role ≡ weight k c r.role
  head_weight k x rs f e =
      ap₂ (λ a b. weight k a b) (is_row_of_iff c u x e).0
        (ap (λ (y : MemberRow). y.role) (found_head x rs f e))

  -- Deleting the row of a member takes away what it added.
  pub owners-delete :
      (k : Uuid) (rs : List MemberRow) {r : MemberRow}
      → Distinct rs
      → find_first match rs ≡ some r
      → owners k (where_ (λ x. not (match x)) rs) + weight k c r.role ≡ owners k rs
  owners-delete k [] h f = cc
  owners-delete k (x ∷ rs) {r} h f = elim (Bool-cases (match x)) [
    | inl e ↦
        rw (e, where_absent c u rs (tail_absent x rs h e), owners-cons)
          (omega (arith, head_weight k x rs f e))
    | inr e ↦ rw (e, owners-cons, owners-cons) (omega (arith, owners-delete k rs h.1 (rw e at f)))
  ]

  -- A new role of a member is counted for the old one.
  pub owners-set_role :
      (k : Uuid) (new : MemberRole) (rs : List MemberRow) {r : MemberRow}
      → Distinct rs
      → find_first match rs ≡ some r
      → owners k (update_where match (with_role new) rs) + weight k c r.role
        ≡ owners k rs + weight k c new
  owners-set_role k new [] h f = cc
  owners-set_role k new (x ∷ rs) {r} h f = elim (Bool-cases (match x)) [
    | inl e ↦
        rw (e, update_absent c u (with_role new) rs (tail_absent x rs h e), owners-cons)
          (let w : weight k x.chat_id new ≡ weight k c new =
              ap (λ a. weight k a new) (is_row_of_iff c u x e).0 in
            omega (arith, owners-cons k x rs, head_weight k x rs f e))
    | inr e ↦
        rw (e, owners-cons)
          (omega (arith, owners-cons k x rs, owners-set_role k new rs h.1 (rw e at f)))
  ]
