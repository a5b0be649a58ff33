-- ===== src/Storage/Postgres/History.antt =====
-- internal/infrastructure/storage/postgres/message.go, `GetChatMessages`: the pages of a chat.
use vibechat.Prelude.{
  ℕ, ◌≡◌, refl, ap, ◌∙◌, Bool, true, false, ◌&&◌, ◌||◌, List, [], ◌∷◌, ◌++◌, none, some, ◌==◌, leb,
  ltb, where_, take, any, All, arith, Bool-cases, Option-cases, inl, inr, if◌then◌else◌,
}
use vibechat.Exec.{ok}
use vibechat.Domain.User.{Uuid}
use vibechat.Domain.Message.{Message, MessageCursor}
use vibechat.Storage.Tables.{Db, MessageRow}
use vibechat.Storage.Connection.{tables}
use vibechat.Storage.Order.{order_by}
use vibechat.Storage.Order.Filter.{where-and, Sorted, IsOrder, Sorted-order_by, where-order_by}
use vibechat.Storage.Postgres.Message
use vibechat.Storage.Sql.Previews.{newer, is_live_message_of}
use vibechat.Storage.Sql.Messages.{
  is_older, with_sender, join_senders, select_messages, scan_message,
}
use vibechat.Storage.Sql.Users.{Collation}

newer-IsOrder : IsOrder newer
unfolding newer
newer-IsOrder = record { trans = λ x y z e f. ground arith; total = λ x y e. ground arith }

-- The whole history of a chat, the newest message first.
abbrev pub history : Uuid → Db → List Message
history c d = join_senders d (order_by newer (where_ (is_live_message_of c) d.messages))

abbrev pub cursor_of : Message → MessageCursor
cursor_of m = record { created_at = m.created_at; id = m.id }

-- The same comparisons of messages.
abbrev newer_message : Message → Message → Bool
newer_message a b =
    if a.created_at == b.created_at then leb b.id a.id else leb b.created_at a.created_at

abbrev older_message : MessageCursor → Message → Bool
older_message c m = ltb m.created_at c.created_at || (m.created_at == c.created_at && ltb m.id c.id)

with_sender-key :
    (d : Db) (r : MessageRow) {m : Message}
    → with_sender d r ≡ some m
    → (m.created_at ≡ r.created_at) × (m.id ≡ r.id)
unfolding with_sender scan_message
with_sender-key d r h = ground arith

join-none :
    (d : Db) (r : MessageRow) (rs : List MessageRow)
    → with_sender d r ≡ none
    → join_senders d (r ∷ rs) ≡ join_senders d rs
unfolding join_senders
join-none d r rs e = rw (join_senders, e) refl

join-some :
    (d : Db) (r : MessageRow) (rs : List MessageRow) {m : Message}
    → with_sender d r ≡ some m
    → join_senders d (r ∷ rs) ≡ m ∷ join_senders d rs
unfolding join_senders
join-some d r rs e = rw (join_senders, e) refl

older-key :
    (c : MessageCursor) (r : MessageRow) (m : Message)
    → (m.created_at ≡ r.created_at) × (m.id ≡ r.id)
    → older_message c m ≡ is_older (some c) r
unfolding is_older
older-key c r m k = rw (k.0, k.1) refl

newer-key :
    (r s : MessageRow) (m n : Message)
    → (m.created_at ≡ r.created_at) × (m.id ≡ r.id)
    → (n.created_at ≡ s.created_at) × (n.id ≡ s.id)
    → newer_message m n ≡ newer r s
unfolding newer
newer-key r s m n k l = rw (k.0, k.1, l.0, l.1) refl

-- The condition of the cursor may be taken after the join.
join-where :
    (d : Db) (c : MessageCursor) (rs : List MessageRow)
    → join_senders d (where_ (is_older (some c)) rs) ≡ where_ (older_message c) (join_senders d rs)
unfolding join_senders
join-where d c [] = refl
join-where d c (r ∷ rs) = elim (Option-cases (with_sender d r)) [
  | inl n ↦ elim (Bool-cases (is_older (some c) r)) [
    | inl e ↦
        rw (e, join-none d r rs n, join-none d r (where_ (is_older (some c)) rs) n)
          (join-where d c rs)
    | inr e ↦ rw (e, join-none d r rs n) (join-where d c rs)
  ]
  | inr (m, s) ↦
      let same = older-key c r m (with_sender-key d r s) in
      elim (Bool-cases (is_older (some c) r)) [
        | inl e ↦
            rw (e, join-some d r rs s, join-some d r (where_ (is_older (some c)) rs) s, same ∙ e)
              (ap (◌∷◌ m) (join-where d c rs))
        | inr e ↦ rw (e, join-some d r rs s, same ∙ e) (join-where d c rs)
      ]
]

join-All :
    (d : Db) (r : MessageRow) (m : Message) (rs : List MessageRow)
    → (m.created_at ≡ r.created_at) × (m.id ≡ r.id)
    → All (λ s. newer r s ≡ true) rs
    → All (λ n. newer_message m n ≡ true) (join_senders d rs)
unfolding join_senders
join-All d r m [] k a = tt
join-All d r m (s ∷ rs) k a = elim (Option-cases (with_sender d s)) [
  | inl n ↦ rw (join-none d s rs n) (join-All d r m rs k a.1)
  | inr (x, e) ↦
      rw (join-some d s rs e)
        (newer-key r s m x k (with_sender-key d s e) ∙ a.0, join-All d r m rs k a.1)
]

join-Sorted :
    (d : Db) (rs : List MessageRow) → Sorted newer rs → Sorted newer_message (join_senders d rs)
unfolding join_senders
join-Sorted d [] s = tt
join-Sorted d (r ∷ rs) s = elim (Option-cases (with_sender d r)) [
  | inl n ↦ rw (join-none d r rs n) (join-Sorted d rs s.1)
  | inr (m, e) ↦
      rw (join-some d r rs e) (join-All d r m rs (with_sender-key d r e) s.0, join-Sorted d rs s.1)
]

-- Of a sorted list, what is older than an entry is what follows it.
older-none : (m x : Message) → newer_message x m ≡ true → older_message (cursor_of m) x ≡ false
older-none m x e = ground arith

newer_refl : (m : Message) → newer_message m m ≡ true
newer_refl m = ground arith

older-next :
    (m x : Message)
    → newer_message m x ≡ true
    → (x.id == m.id) ≡ false
    → older_message (cursor_of m) x ≡ true
older-next m x e f = ground arith

where-post :
    (m : Message) (post : List Message)
    → All (λ n. newer_message m n ≡ true) post
    → any (λ n. n.id == m.id) post ≡ false
    → where_ (older_message (cursor_of m)) post ≡ post
where-post m [] a h = refl
where-post m (x ∷ xs) a h = elim (Bool-cases (x.id == m.id)) [
  | inl e ↦ absurd (ground arith)
  | inr e ↦ rw (older-next m x a.0 e) (ap (◌∷◌ x) (where-post m xs a.1 (rw e at h)))
]

All-middle :
    (P : Message → Type 0) (pre : List Message) (m : Message) (post : List Message)
    → All P (pre ++ m ∷ post)
    → P m
All-middle P [] m post a = a.0
All-middle P (x ∷ xs) m post a = All-middle P xs m post a.1

where-after :
    (m : Message) (pre post : List Message)
    → Sorted newer_message (pre ++ m ∷ post)
    → any (λ n. n.id == m.id) post ≡ false
    → where_ (older_message (cursor_of m)) (pre ++ m ∷ post) ≡ post
where-after m [] post s h = rw (older-none m m (newer_refl m)) (where-post m post s.0 h)
where-after m (x ∷ xs) post s h =
    rw (older-none m x (All-middle (λ n. newer_message x n ≡ true) xs m post s.0))
      (where-after m xs post s.1 h)

-- A page is the beginning of what the history has after its cursor.
select-after :
    (c : Uuid) (cur : MessageCursor) (d : Db)
    → join_senders d
        (order_by newer (where_ (λ r. is_live_message_of c r && is_older (some cur) r) d.messages))
      ≡ where_ (older_message cur) (history c d)
select-after c cur d =
    ap (λ rs. join_senders d (order_by newer rs))
      (where-and (is_live_message_of c) (is_older (some cur)) d.messages)
    ∙ ap (join_senders d) (
        where-order_by newer newer-IsOrder (is_older (some cur))
          (where_ (is_live_message_of c) d.messages))
    ∙ join-where d cur (order_by newer (where_ (is_live_message_of c) d.messages))

-- The history of a chat is what its live messages are, the newest first, each with its sender. If
-- a message `m` stands in it and no message behind has the same identifier, then the page after
-- the cursor of `m` is the beginning of what stands behind `m`, up to the limit: no message is
-- skipped and none comes twice.
pub next_page :
    (col : Collation) (c : Uuid) (d : Db) (m : Message) (pre post : List Message) (limit : ℕ)
    → history c d ≡ pre ++ m ∷ post
    → any (λ n. n.id == m.id) post ≡ false
    → Message.get_chat_messages tables col c (some (cursor_of m)) limit d
      ≡ (ok (take limit post), d)
unfolding Message.get_chat_messages select_messages
next_page col c d m pre post limit split fresh =
    let sorted =
      join-Sorted d _
        (Sorted-order_by newer newer-IsOrder (where_ (is_live_message_of c) d.messages)) in
    let rest : where_ (older_message (cursor_of m)) (history c d) ≡ post =
      (ap (where_ (older_message (cursor_of m))) split
        ∙ where-after m pre post (rw split at sorted) fresh) in
    ap (λ ms. (ok (take limit ms), d)) (select-after c (cursor_of m) d ∙ rest)
