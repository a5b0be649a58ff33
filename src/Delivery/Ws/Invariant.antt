-- ===== src/Delivery/Ws/Invariant.antt =====
-- internal/delivery/ws: each step of the hub keeps the rooms sets, the buffers short and the clients
-- in the rooms of their own chats.
use mathlib.Core.Path.{subst}
use vibechat.Prelude.{
  ℕ, ◌≤◌, ◌≡◌, refl, sym, ◌∙◌, String, Bool, true, false, ◌&&◌, ◌||◌, List, [], ◌∷◌, ◌++◌, Option,
  none, some, arith, ◌==◌, ==_iff, any, length, length-append, either_branch, Bool-cases,
  Option-cases, inl, inr,
}
use vibechat.Domain.User.{Uuid}
use vibechat.Delivery.Ws.{
  Pointer, Event, ClientEvent, Client, Hub, new_hub, members, set_client, offer, offer_unless,
  fan_out, broadcast_to_chat, dispatch, is_member, read_event, new_client, close, write_all,
  write_round, write_pump, send_buffer_size,
}
use vibechat.Delivery.Ws.Rooms.{
  in_room, subscribe-in_room, unsubscribe-in_room, subscribe-clients, unsubscribe-clients,
  subscribe-Distinct, unsubscribe-Distinct,
}
use vibechat.Delivery.Ws.Reach.{
  Reach, start, connect, malformed, foreign, relay, publish, write, leave, IsHub,
}

new_hub-IsHub : IsHub new_hub
unfolding new_hub members
new_hub-IsHub = record {
  distinct = λ c. tt;
  bounded = λ p. omega arith;
  subscribed = λ p c h. absurd (cc);
}

connect-IsHub :
    (p : Pointer) (u : Uuid) (ids : List Uuid) (h : Hub)
    → ((c : Uuid) → in_room p c h ≡ false)
    → IsHub h
    → IsHub (new_client p u ids h)
unfolding new_client set_client is_member
connect-IsHub p u ids h fresh i = record {
  distinct = subscribe-Distinct p ids _ i.distinct;
  bounded = λ q.
      rw (subscribe-clients p ids)
        (elim (Bool-cases (p == q)) [ inl e ↦ rw e (omega arith) | inr e ↦ rw e (i.bounded q) ]);
  subscribed = λ q c m.
      let m' : (in_room q c h || ((p == q) && any (λ j. j == c) ids)) ≡ true =
        sym (subscribe-in_room p ids q c _) ∙ m in
      rw (subscribe-clients p ids) (elim (Bool-cases (p == q)) [
        | inl e ↦
            let f = subst (λ x. in_room x c h ≡ false) ((==_iff p q).0 e) (fresh c) in
            rw e (ground arith)
        | inr e ↦ rw e (i.subscribed q c (ground arith))
      ]);
}

close-IsHub : (p : Pointer) (h : Hub) → IsHub h → IsHub (close p h)
unfolding close
close-IsHub p h i = record {
  distinct = unsubscribe-Distinct p (h.clients p).chat_ids h i.distinct;
  bounded = λ q. rw (unsubscribe-clients p (h.clients p).chat_ids h) (i.bounded q);
  subscribed = λ q c m. rw (unsubscribe-clients p (h.clients p).chat_ids h) (
      i.subscribed q c
        (let e = sym (unsubscribe-in_room p (h.clients p).chat_ids q c h) ∙ m in ground arith));
}

-- A change of one client that keeps what the invariant reads.
set_client-IsHub :
    (p : Pointer) (x : Client) (h : Hub)
    → IsHub h
    → length x.send ≤ send_buffer_size
    → x.chat_ids ≡ (h.clients p).chat_ids
    → IsHub (set_client p x h)
unfolding set_client is_member
set_client-IsHub p x h i short same = record {
  distinct = i.distinct;
  bounded = λ q. elim (Bool-cases (p == q)) [ inl e ↦ rw e short | inr e ↦ rw e (i.bounded q) ];
  subscribed = λ q c m. elim (Bool-cases (p == q)) [
    | inl e ↦ rw (e, same, (==_iff p q).0 e) (i.subscribed q c m)
    | inr e ↦ rw e (i.subscribed q c m)
  ];
}

offer_unless-short :
    (msg : String) (u : Uuid) (x : Client)
    → length x.send ≤ send_buffer_size
    → length (offer_unless msg u x).send ≤ send_buffer_size
unfolding offer_unless offer
offer_unless-short msg u x h = ground (arith, length-append x.send (msg ∷ []))

offer_unless-chat_ids :
    (msg : String) (u : Uuid) (x : Client) → (offer_unless msg u x).chat_ids ≡ x.chat_ids
unfolding offer_unless offer
offer_unless-chat_ids msg u x = ground arith

fan_out-IsHub :
    (msg : String) (u : Uuid) (ps : List Pointer) (h : Hub) → IsHub h → IsHub (fan_out msg u ps h)
unfolding fan_out
fan_out-IsHub msg u [] h i = i
fan_out-IsHub msg u (p ∷ ps) h i = fan_out-IsHub msg u ps _ (
    set_client-IsHub p _ h i (offer_unless-short msg u _ (i.bounded p))
      (offer_unless-chat_ids msg u (h.clients p)))

broadcast-IsHub :
    (marshal : Event → Option String) (c : Uuid) (e : Event) (u : Uuid) (h : Hub)
    → IsHub h
    → IsHub (broadcast_to_chat marshal c e u h)
unfolding broadcast_to_chat
broadcast-IsHub marshal c e u h i = elim (Option-cases (marshal e)) [
  | inl n ↦ rw (broadcast_to_chat, n) i
  | inr (msg, m) ↦ rw (broadcast_to_chat, m) (fan_out-IsHub msg u (members (h.rooms c)) h i)
]

read_event-IsHub :
    (marshal : Event → Option String) (p : Pointer) (ce : Option ClientEvent) (h : Hub)
    → IsHub h
    → IsHub (read_event marshal p ce h)
unfolding read_event
read_event-IsHub marshal p none h i = i
read_event-IsHub marshal p (some ce) h i = elim (Bool-cases (is_member ce.chat_id (h.clients p))) [
  | inl e ↦ rw (read_event, e) (broadcast-IsHub marshal ce.chat_id _ _ h i)
  | inr e ↦ rw (read_event, e) i
]

write_all-shorter :
    (accepts : ℕ → Bool) (ms : List String) (x : Client)
    → (length (write_all accepts ms x).send ≤ length ms)
      × ((write_all accepts ms x).chat_ids ≡ x.chat_ids)
unfolding write_all
write_all-shorter accepts [] x = (omega arith, refl)
write_all-shorter accepts (m ∷ ms) x =
    let rest = write_all-shorter accepts ms (record x { frames = x.frames ++ m ∷ [] }) in
    elim (Bool-cases (accepts (length x.frames))) [
      | inl e ↦ rw e (omega (arith, rest.0), rest.1)
      | inr e ↦ rw e (omega arith, refl)
    ]

write_round-shorter :
    (accepts : ℕ → Bool) (x : Client)
    → (length (write_round accepts x).send ≤ length x.send)
      × ((write_round accepts x).chat_ids ≡ x.chat_ids)
unfolding write_round
write_round-shorter accepts x =
    either_branch (λ (y : Client). (length y.send ≤ length x.send) × (y.chat_ids ≡ x.chat_ids))
      x.writing (write_all-shorter accepts x.send x) (omega arith, refl)

write_pump-IsHub :
    (accepts : ℕ → Bool) (p : Pointer) (h : Hub) → IsHub h → IsHub (write_pump accepts p h)
unfolding write_pump
write_pump-IsHub accepts p h i =
    let (short, same) = write_round-shorter accepts (h.clients p) in
    set_client-IsHub p (write_round accepts (h.clients p)) h i (omega (arith, short, i.bounded p))
      same

-- In every state that the hub reaches, no client stands twice in a room, no buffer holds more than
-- its 256 messages, and a client stands only in the rooms of the chats that it was connected with.
pub Reach-IsHub :
    (marshal : Event → Option String) (accepts : Pointer → ℕ → Bool) (h : Hub) (log : List Event)
    → Reach marshal accepts h log
    → IsHub h
unfolding dispatch read_event
Reach-IsHub marshal accepts h log start = new_hub-IsHub
Reach-IsHub marshal accepts h log (connect p u ids fresh r) =
    connect-IsHub p u ids _ fresh (Reach-IsHub marshal accepts _ _ r)
Reach-IsHub marshal accepts h log (malformed p r) = Reach-IsHub marshal accepts _ _ r
Reach-IsHub marshal accepts h log (foreign p ce m r) =
    read_event-IsHub marshal p (some ce) _ (Reach-IsHub marshal accepts _ _ r)
Reach-IsHub marshal accepts h log (relay p ce m r) =
    read_event-IsHub marshal p (some ce) _ (Reach-IsHub marshal accepts _ _ r)
Reach-IsHub marshal accepts h log (publish e r) =
    broadcast-IsHub marshal e.chat_id e e.sender_id _ (Reach-IsHub marshal accepts _ _ r)
Reach-IsHub marshal accepts h log (write p r) =
    write_pump-IsHub (accepts p) p _ (Reach-IsHub marshal accepts _ _ r)
Reach-IsHub marshal accepts h log (leave p r) = close-IsHub p _ (Reach-IsHub marshal accepts _ _ r)
