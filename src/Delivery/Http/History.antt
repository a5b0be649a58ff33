-- ===== src/Delivery/Http/History.antt =====
-- internal/delivery/http/handler/message.go, `GetHistory`: the limit that reaches the service is one
-- that it can build a page with.
use vibechat.Prelude.{
  ◌≡◌, ◌≢◌, ap, ℕ, ◌≤◌, ℤ, pos, negsuc, to_ℕ, List, [], ◌∷◌, none, Bool-cases, inl, inr, ltb,
  length, arith, Option-cases,
}
use vibechat.Exec.{Result, ok, Exec, pure, bind-eq-ok}
use vibechat.Domain.User.{Uuid}
use vibechat.Domain.Chat.{ChatRepository}
use vibechat.Domain.Message.{Message, MessageRepository}
use vibechat.UseCase.Message.Dto.{ListInput, build_page_result, next_cursor, last_of}
use vibechat.UseCase.Message.Service
use vibechat.Delivery.Http.Message
use vibechat.Delivery.Http.Message.{clamp}

-- The limit is from 1 to 100, whatever number the request gives.
pub clamp-bounds : (n : ℤ) → (1 ≤ to_ℕ (clamp n)) × (to_ℕ (clamp n) ≤ 100)
unfolding clamp
clamp-bounds (pos n) = ground arith
clamp-bounds (negsuc n) = ground arith

last_of-some : (m : Message) (ms : List Message) → last_of (m ∷ ms) ≢ none
unfolding last_of
last_of-some m [] e = absurd (cc)
last_of-some m (n ∷ ms) e = last_of-some n ms e

-- A page is built for every positive limit.
build_page_result-some : (ms : List Message) (n : ℕ) → 1 ≤ n → build_page_result ms n ≢ none
unfolding build_page_result next_cursor
build_page_result-some [] n h e = ground arith
build_page_result-some (m ∷ ms) n h e = elim (Bool-cases (ltb (length (m ∷ ms)) n)) [
  | inl b ↦ ground arith
  | inr b ↦ elim (Option-cases (last_of (m ∷ ms))) [
    | inl l ↦ last_of-some m ms l
    | inr (x, l) ↦ ground arith
  ]
]

pure-eq : {S A : Type 0} (x y : A) (s t : S) → ◌≡◌ {A = Result A × S} (pure x s) (ok y, t) → x ≡ y
unfolding pure
pure-eq x y s t h = let h' : ok x ≡ ok y = ap (λ p. p.0) h in cc

module _ {S : Type 0} (messages : MessageRepository S) (chats : ChatRepository S) where
  -- The service builds a page for every positive limit.
  pub get_history-some :
      (caller : Uuid) (i : ListInput) (s : S)
      → 1 ≤ i.limit
      → (Service.get_history messages chats caller i s).0 ≢ ok none
  unfolding Service.get_history
  get_history-some caller i s h e =
      let t = (Service.get_history messages chats caller i s).1 in
      let (u, _, e1) = bind-eq-ok _ _ s t (ap (λ r. (r, t)) e) in
      let (msgs, _, e2) = bind-eq-ok _ _ _ t e1 in
      let (msgs', _, e3) = bind-eq-ok _ _ _ t e2 in
      build_page_result-some msgs' i.limit h (pure-eq _ none _ t e3)
