-- ===== src/Storage/Mysql/Previews/Agrees.antt =====
-- internal/infrastructure/storage/mysql/chat.go: the message that ROW_NUMBER() picks is the one that
-- DISTINCT ON picks in PostgreSQL.
use mathlib.Core.Path.{subst, fun_ext}
use vibechat.Prelude.{
  ◌≡◌, refl, sym, ap, ◌∙◌, ◌⊎◌, inl, inr, Bool, true, false, not, ◌&&◌, List, [], ◌∷◌, Option, none,
  some, arith, ◌==◌, All, All-map, any, find_first, count_where, where_, Bool-cases, if_true,
  either_branch,
}
use vibechat.Domain.User.{Uuid}
use vibechat.Storage.Tables.{MessageRow, Db}
use vibechat.Storage.Order.{insert, order_by}
use vibechat.Storage.Order.Filter.{IsOrder}
use vibechat.Storage.Sql.Previews
use vibechat.Storage.Sql.Previews.{newer, first_of, is_live_message_of}
use vibechat.Storage.Connection.{tables}
use vibechat.Storage.Postgres.Chat as PostgresChat
use vibechat.Storage.Mysql.Chat
use vibechat.Storage.Mysql.Previews as Ranked
use vibechat.Storage.Mysql.Previews.{row_number}

abbrev In : MessageRow → List MessageRow → Type 0
In m [] = true ≡ false
In m (x ∷ xs) = (x ≡ m) ⊎ In m xs

-- The primary key of `messages`.
abbrev pub DistinctIds : List MessageRow → Type 0
DistinctIds [] = Unit
DistinctIds (m ∷ ms) = (any (λ x. x.id == m.id) ms ≡ false) × DistinctIds ms

All-In {κ} :
    (P : MessageRow → Type κ) (ms : List MessageRow) → ((m : MessageRow) → In m ms → P m) → All P ms
All-In P [] f = tt
All-In P (m ∷ ms) f = (f m (inl refl), All-In P ms (λ x i. f x (inr i)))

In-All {κ} :
    (P : MessageRow → Type κ) (ms : List MessageRow) (m : MessageRow) → All P ms → In m ms → P m
In-All P [] m a i = absurd (cc)
In-All P (x ∷ xs) m a (inl e) = subst P e a.0
In-All P (x ∷ xs) m a (inr i) = In-All P xs m a.1 i

newest_antisym : (a b : MessageRow) → newer a b ≡ true → newer b a ≡ true → (a.id == b.id) ≡ true
unfolding newer
newest_antisym a b h k = ground arith

newer_self : (a : MessageRow) → newer a a ≡ true
unfolding newer
newer_self a = ground arith

newer-IsOrder : IsOrder newer
unfolding newer
newer-IsOrder = record { trans = λ a b c h k. ground arith; total = λ a b h. ground arith }

any-In :
    (y : Uuid) (ms : List MessageRow) (m : MessageRow)
    → any (λ x. x.id == y) ms ≡ false
    → In m ms
    → (m.id == y) ≡ false
any-In y [] m h i = absurd (cc)
any-In y (x ∷ xs) m h (inl e) = subst (λ z. (z.id == y) ≡ false) e (ground arith)
any-In y (x ∷ xs) m h (inr i) = any-In y xs m (ground arith) i

same_row :
    (ms : List MessageRow) (a b : MessageRow)
    → DistinctIds ms
    → In a ms
    → In b ms
    → (a.id == b.id) ≡ true
    → a ≡ b
same_row [] a b d i j h = absurd (cc)
same_row (x ∷ xs) a b d (inl e) (inl f) h = sym e ∙ f
same_row (x ∷ xs) a b d (inl e) (inr j) h =
    let n = any-In x.id xs b d.0 j in let h' = rw (← e) at h in ground arith
same_row (x ∷ xs) a b d (inr i) (inl f) h =
    let n = any-In x.id xs a d.0 i in let h' = rw (← f) at h in absurd (cc)
same_row (x ∷ xs) a b d (inr i) (inr j) h = same_row xs a b d.1 i j h

-- The first row of a sorted list comes before all of them.
pub data Newest : List MessageRow → Option MessageRow → Type 0 where
  nothing : Newest [] none
  newest :
      (m : MessageRow) {ms : List MessageRow}
      → In m ms
      → All (λ x. newer m x ≡ true) ms
      → Newest ms (some m)

first-insert :
    (x : MessageRow) (ms sorted : List MessageRow)
    → Newest ms (first_of sorted)
    → Newest (x ∷ ms) (first_of (insert newer x sorted))
unfolding first_of insert
first-insert x ms [] nothing = Newest.newest x (inl refl) (newer_self x, tt)
first-insert x ms (y ∷ ys) (newest m i a) = elim (Bool-cases (newer x y)) [
  | inl e ↦ rw e (
      Newest.newest x (inl refl)
        (newer_self x, All-map ms (λ z h. newer-IsOrder.trans x m z e h) a))
  | inr e ↦ rw e (Newest.newest m (inr i) (newer-IsOrder.total x m e, a))
]

first-order_by : (ms : List MessageRow) → Newest ms (first_of (order_by newer ms))
unfolding order_by first_of
first-order_by [] = Newest.nothing
first-order_by (x ∷ xs) = first-insert x xs (order_by newer xs) (first-order_by xs)

found_only :
    (p : MessageRow → Bool) (ms : List MessageRow) (m : MessageRow)
    → In m ms
    → p m ≡ true
    → All (λ x. p x ≡ true → x ≡ m) ms
    → find_first p ms ≡ some m
found_only p [] m i h only = absurd (cc)
found_only p (x ∷ xs) m (inl e) h only =
    let px : p x ≡ true = rw e h in if_true (p x) _ _ px ∙ ap some e
found_only p (x ∷ xs) m (inr i) h only = elim (Bool-cases (p x)) [
  | inl e ↦ rw e (ap some (only.0 e))
  | inr e ↦ rw e (found_only p xs m i h only.1)
]

count-zero :
    (p : MessageRow → Bool) (ms : List MessageRow)
    → All (λ x. p x ≡ false) ms
    → count_where p ms ≡ 0
count-zero p [] a = refl
count-zero p (x ∷ xs) a = let z = count-zero p xs a.1 in rw (a.0) z

zero-count :
    (p : MessageRow → Bool) (ms : List MessageRow)
    → count_where p ms ≡ 0
    → All (λ x. p x ≡ false) ms
zero-count p [] h = tt
zero-count p (x ∷ xs) h = elim (Bool-cases (p x)) [
  | inl e ↦ let h' = rw e at h in absurd (omega (arith, h'))
  | inr e ↦ (e, zero-count p xs (rw e at h))
]

-- The newest row has the first number, and no other row has it.
ranked :
    (ms : List MessageRow) (o : Option MessageRow)
    → DistinctIds ms
    → Newest ms o
    → find_first (λ m. row_number ms m == 1) ms ≡ o
unfolding row_number
ranked ms o d nothing = refl
ranked ms o d (newest m i a) =
    found_only (λ x. row_number ms x == 1) ms m i first (All-In _ ms alone)
  where
    first : (row_number ms m == 1) ≡ true
    first =
        let z =
          count-zero (λ x. newer x m && not (x.id == m.id)) ms
            (All-map ms (λ x h. let t = newest_antisym x m in ground arith) a) in
        ground arith

    alone : (x : MessageRow) → In x ms → (row_number ms x == 1) ≡ true → x ≡ m
    alone x j h =
        let z = zero-count (λ y. newer y x && not (y.id == x.id)) ms (ground arith) in
        let none_before = In-All _ ms m z i in
        let m_first = In-All _ ms x a j in sym (same_row ms m x d i j (ground arith))

any-where :
    (p q : MessageRow → Bool) (ms : List MessageRow)
    → any q ms ≡ false
    → any q (where_ p ms) ≡ false
any-where p q [] h = refl
any-where p q (x ∷ xs) h = ground (arith, any-where p q xs)

where-DistinctIds :
    (p : MessageRow → Bool) (ms : List MessageRow) → DistinctIds ms → DistinctIds (where_ p ms)
where-DistinctIds p [] d = tt
where-DistinctIds p (x ∷ xs) d =
    either_branch DistinctIds (p x)
      (any-where p (λ y. y.id == x.id) xs d.0, where-DistinctIds p xs d.1)
      (where-DistinctIds p xs d.1)

pub last_message-agrees :
    (c : Uuid) (d : Db)
    → DistinctIds d.messages
    → Ranked.last_message c d ≡ Previews.last_message c d
unfolding Ranked.last_message Previews.last_message
last_message-agrees c d distinct =
    let ms = where_ (is_live_message_of c) d.messages in
    ranked ms _ (where-DistinctIds (is_live_message_of c) d.messages distinct) (first-order_by ms)

preview_row-agrees :
    (u : Uuid) (d : Db) → DistinctIds d.messages → Ranked.preview_row u d ≡ Previews.preview_row u d
unfolding Ranked.preview_row Previews.preview_row Ranked.unread_count Previews.unread_count
preview_row-agrees u d distinct = fun_ext λ c. rw (last_message-agrees c.id d distinct) refl

-- Where the ids of messages are distinct, as the primary key has it, the repository of MySQL and that
-- of PostgreSQL return the same list of previews from the same tables.
pub get_user_chats-agrees :
    (u : Uuid) (d : Db)
    → DistinctIds d.messages
    → Chat.get_user_chats tables u d ≡ PostgresChat.get_user_chats tables u d
unfolding Chat.get_user_chats PostgresChat.get_user_chats Ranked.select_user_chats
    Previews.select_user_chats
get_user_chats-agrees u d distinct = rw (preview_row-agrees u d distinct) refl
