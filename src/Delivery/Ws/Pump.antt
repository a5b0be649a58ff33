-- ===== src/Delivery/Ws/Pump.antt =====
-- internal/delivery/ws/client.go: what the write pump hands to the connection, and which events reach
-- a client.
use mathlib.Core.Path.{subst}
use mathlib.Core.List.{append-nil, append_assoc}
use vibechat.Prelude.{
  ℕ, zero, suc, ◌+◌, ◌≤◌, ◌<◌, ◌≡◌, refl, ap, ◌∙◌, String, Bool, true, false, not, ◌&&◌, inl, inr,
  List, [], ◌∷◌, ◌++◌, Option, none, some, arith, ◌==◌, ==_refl, ltb, length, length-append,
  if_true, if_false, if◌then◌else◌, Bool-cases, Option-cases,
}
use vibechat.Domain.User.{Uuid}
use vibechat.Delivery.Ws.{
  Pointer, Event, Client, Hub, members, set_client, broadcast_to_chat, dispatch, write_all,
  write_round, write_pump, send_buffer_size,
}
use vibechat.Delivery.Ws.Rooms.{in_room, Distinct}
use vibechat.Delivery.Ws.Broadcast.{broadcast-rooms, broadcast_to_chat_lem}
use vibechat.Delivery.Ws.Reach.{Reach}
use vibechat.Delivery.Ws.Invariant.{Reach-IsHub}

-- The connection takes `n` frames after those that it has.
abbrev pub Takes : (ℕ → Bool) → Client → ℕ → Type 0
Takes accepts x n = (k : ℕ) → k < n → accepts (length x.frames + k) ≡ true

-- How a round ended: with an empty buffer, when every message was taken, or at the first message that
-- was not, after those before it were.
pub data Written (accepts : ℕ → Bool) (x : Client) (ms : List String) (y : Client) : Type 0 where
  all :
      Takes accepts x (length ms)
      → y ≡ record x { frames = x.frames ++ ms; send = [] }
      → Written accepts x ms y
  some_of :
      (taken : List String) (lost : String) (left : List String)
      → ms ≡ taken ++ lost ∷ left
      → Takes accepts x (length taken)
      → accepts (length x.frames + length taken) ≡ false
      → y ≡ record x { frames = x.frames ++ taken; send = left; writing = false }
      → Written accepts x ms y

Takes-cons :
    (accepts : ℕ → Bool) (x : Client) (m : String) (n : ℕ)
    → accepts (length x.frames) ≡ true
    → Takes accepts (record x { frames = x.frames ++ m ∷ [] }) n
    → Takes accepts x (suc n)
Takes-cons accepts x m n first later zero h =
    let z : length x.frames ≡ length x.frames + 0 = omega arith in
    subst (λ k. accepts k ≡ true) z first
Takes-cons accepts x m n first later (suc k) h =
    let z : length (x.frames ++ m ∷ []) + k ≡ length x.frames + suc k =
      omega (arith, length-append x.frames (m ∷ [])) in
    subst (λ i. accepts i ≡ true) z (later k (omega arith))

Written-cons :
    (accepts : ℕ → Bool) (x y : Client) (m : String) (ms : List String)
    → accepts (length x.frames) ≡ true
    → Written accepts (record x { frames = x.frames ++ m ∷ [] }) ms y
    → Written accepts x (m ∷ ms) y
Written-cons accepts x y m ms first (all t e) =
    Written.all (Takes-cons accepts x m (length ms) first t) (e ∙ rw append_assoc refl)
Written-cons accepts x y m ms first (some_of taken lost left split t stop e) =
    let z : length (x.frames ++ m ∷ []) + length taken ≡ length x.frames + suc (length taken) =
      omega (arith, length-append x.frames (m ∷ [])) in
    Written.some_of (m ∷ taken) lost left (ap (λ l. m ∷ l) split)
      (Takes-cons accepts x m (length taken) first t) (subst (λ n. accepts n ≡ false) z stop)
      (e ∙ rw append_assoc refl)

-- One round over a buffer hands its messages to the connection in their order. Either the connection
-- takes each, and the buffer is empty, or the round stops at the first that it does not take: those
-- before it were taken and are written, it is lost, and the rest stays in the buffer of a pump that has
-- ended.
pub write_all-Written :
    (accepts : ℕ → Bool) (ms : List String) (x : Client)
    → Written accepts x ms (write_all accepts ms x)
unfolding write_all
write_all-Written accepts [] x = Written.all (λ k h. absurd (omega arith)) (rw append-nil refl)
write_all-Written accepts (m ∷ ms) x = elim (Bool-cases (accepts (length x.frames))) [
  | inl e ↦ rw e (Written-cons accepts x _ m ms e (write_all-Written accepts ms _))
  | inr e ↦ rw e (
      Written.some_of [] m ms refl (λ k h. absurd (omega arith))
        (let z : length x.frames + 0 ≡ length x.frames = omega arith in rw z e)
        (rw append-nil refl))
]

-- A connection that takes every frame.
pub write_pump-all :
    (accepts : ℕ → Bool) (p : Pointer) (h : Hub)
    → ((n : ℕ) → accepts n ≡ true)
    → (h.clients p).writing ≡ true
    → (write_pump accepts p h).clients p
      ≡ record (h.clients p) { frames = (h.clients p).frames ++ (h.clients p).send; send = [] }
unfolding write_pump set_client write_round
write_pump-all accepts p h takes w =
    let x = h.clients p in
    if_true (p == p) _ _ (==_refl p)
    ∙ if_true x.writing _ _ w
    ∙ elim (write_all-Written accepts x.send x) [
      | Written.all t e ↦ e
      | Written.some_of taken lost left split before stop e ↦
          let t = takes (length x.frames + length taken) in absurd (cc)
    ]

-- The encodings of the events that are meant for a user in the rooms that `inside` names.
unfoldable pub wanted : (Event → Option String) → (Uuid → Bool) → Uuid → List Event → List String
wanted marshal inside user [] = []
wanted marshal inside user (e ∷ es) =
    let rest = wanted marshal inside user es in
    elim (marshal e) [
      | none ↦ rest
      | some m ↦ if inside e.chat_id && not (user == e.sender_id) then m ∷ rest else rest
    ]

module _ (marshal : Event → Option String) where
  pub dispatch-cons :
      (e : Event) (es : List Event) (h : Hub)
      → dispatch marshal (e ∷ es) h
        ≡ dispatch marshal es (broadcast_to_chat marshal e.chat_id e e.sender_id h)
  unfolding dispatch
  dispatch-cons e es h = refl

  pub unsent :
      (e : Event) (h : Hub)
      → marshal e ≡ none
      → broadcast_to_chat marshal e.chat_id e e.sender_id h ≡ h
  unfolding broadcast_to_chat
  unsent e h n = rw (broadcast_to_chat, n) refl

  dispatch_lem :
      (es : List Event) (h : Hub) (q : Pointer)
      → ((c : Uuid) → Distinct (members (h.rooms c)))
      → length (h.clients q).send + length es ≤ send_buffer_size
      → let x = h.clients q in
        (dispatch marshal es h).clients q
        ≡ record x { send = x.send ++ wanted marshal (λ c. in_room q c h) x.user_id es }
  unfolding dispatch wanted
  dispatch_lem [] h q d room = let e = append-nil (h.clients q).send in rw e refl
  dispatch_lem (e ∷ es) h q d room = elim (Option-cases (marshal e)) [
    | inl n ↦ rw (dispatch-cons, wanted, unsent e h n, n) (dispatch_lem es h q d (omega arith))
    | inr (m, f) ↦
        let x = h.clients q in
        let h' = broadcast_to_chat marshal e.chat_id e e.sender_id h in
        let rooms = broadcast-rooms marshal e.chat_id e e.sender_id h in
        let sent = broadcast_to_chat_lem marshal e.chat_id e e.sender_id h q f (d e.chat_id) in
        let rest = dispatch_lem es h' q (rw rooms d) in
        elim (Bool-cases (in_room q e.chat_id h && not (x.user_id == e.sender_id))) [
          | inl y ↦
              let offered : (in_room q e.chat_id h
                    && (not (x.user_id == e.sender_id) && ltb (length x.send) send_buffer_size))
                  ≡ true =
                ground arith in
              let x' : h'.clients q ≡ record x { send = x.send ++ m ∷ [] } =
                sent ∙ if_true _ _ _ offered in
              rw (dispatch-cons, wanted, f, y)
                (rest (rw x' (omega (arith, length-append x.send (m ∷ []))))
                  ∙ rw (x', rooms, append_assoc) refl)
          | inr y ↦
              let offered : (in_room q e.chat_id h
                    && (not (x.user_id == e.sender_id) && ltb (length x.send) send_buffer_size))
                  ≡ false =
                ground arith in
              let x' : h'.clients q ≡ x = sent ∙ if_false _ _ _ offered in
              rw (dispatch-cons, wanted, f, y) (rest (rw x' (omega arith)) ∙ rw (x', rooms) refl)
        ]
  ]

-- In a reachable state, when the buffer of a client has room for as many events as are published and
-- its connection takes every frame, the next round of its pump leaves with the connection all that
-- waited before, and then the encodings of exactly the published events of its rooms that other
-- users sent, in the order of their publication, each once.
pub published-written :
    (marshal : Event → Option String) (accepts : Pointer → ℕ → Bool) (h : Hub) (log es : List Event)
    (q : Pointer)
    → Reach marshal accepts h log
    → ((n : ℕ) → accepts q n ≡ true)
    → (h.clients q).writing ≡ true
    → length (h.clients q).send + length es ≤ send_buffer_size
    → ((write_pump (accepts q) q (dispatch marshal es h)).clients q).frames
      ≡ (h.clients q).frames
        ++ ((h.clients q).send ++ wanted marshal (λ c. in_room q c h) (h.clients q).user_id es)
published-written marshal accepts h log es q r takes w room =
    let x' = dispatch_lem marshal es h q (Reach-IsHub marshal accepts h log r).distinct room in
    let w' : ((dispatch marshal es h).clients q).writing ≡ true = rw x' w in
    ap (λ (y : Client). y.frames) (write_pump-all (accepts q) q (dispatch marshal es h) takes w')
    ∙ rw x' refl
