-- ===== src/Delivery/Ws/Heard.antt =====
-- internal/delivery/ws: where the messages of a client come from.
use mathlib.Core.List.{Mem, mem-cons_of_mem, mem-cons_self}
use vibechat.Prelude.{
  ℕ, ◌≡◌, ◌≢◌, refl, ◌∙◌, String, Bool, true, false, not, ◌&&◌, List, [], ◌∷◌, ◌++◌, Option, none,
  some, arith, ◌==◌, ltb, length, All, All-map, Bool-cases, Option-cases, inl, inr, either_branch,
}
use vibechat.Delivery.Ws.{
  Pointer, Event, ClientEvent, Client, Hub, new_hub, set_client, broadcast_to_chat, dispatch,
  is_member, envelope, read_event, new_client, close, write_all, write_round, write_pump,
  send_buffer_size,
}
use vibechat.Delivery.Ws.Rooms.{in_room, subscribe-clients, unsubscribe-clients}
use vibechat.Delivery.Ws.Broadcast.{broadcast_to_chat_lem}
use vibechat.Delivery.Ws.Reach.{
  Reach, start, connect, malformed, foreign, relay, publish, write, leave, IsHub,
}
use vibechat.Delivery.Ws.Invariant.{Reach-IsHub}

-- A message that a client may see: the encoding of an event that was broadcast, of a chat that the
-- client was connected with, and sent by another user.
pub record Heard (marshal : Event → Option String) (log : List Event) (x : Client) (m : String)
    : Type 0 where
  pub event : Event
  pub logged : Mem event log
  pub encoded : marshal event ≡ some m
  pub member : is_member event.chat_id x ≡ true
  pub other : event.sender_id ≢ x.user_id

-- All that was written to a client or waits in its buffer.
abbrev pub AllHeard : (Event → Option String) → List Event → Client → Type 0
AllHeard marshal log x = All (Heard marshal log x) x.frames × All (Heard marshal log x) x.send

All-snoc {ℓ κ} :
    {A : Type ℓ} (P : A → Type κ) (xs : List A) (y : A) → All P xs → P y → All P (xs ++ y ∷ [])
All-snoc P [] y a p = (p, tt)
All-snoc P (x ∷ xs) y a p = (a.0, All-snoc P xs y a.1 p)

-- The write pump neither adds a message nor changes one.
write_all-All {κ} :
    (P : String → Type κ) (accepts : ℕ → Bool) (ms : List String) (x : Client)
    → All P x.frames
    → All P ms
    → All P (write_all accepts ms x).frames × All P (write_all accepts ms x).send
unfolding write_all
write_all-All P accepts [] x f a = (f, tt)
write_all-All P accepts (m ∷ ms) x f a =
    either_branch (λ (y : Client). All P y.frames × All P y.send) (accepts (length x.frames))
      (write_all-All P accepts ms _ (All-snoc P x.frames m f a.0) a.1) (f, a.1)

write_all-same :
    (accepts : ℕ → Bool) (ms : List String) (x : Client)
    → ((write_all accepts ms x).user_id ≡ x.user_id)
      × ((write_all accepts ms x).chat_ids ≡ x.chat_ids)
unfolding write_all
write_all-same accepts [] x = (refl, refl)
write_all-same accepts (m ∷ ms) x =
    either_branch (λ (y : Client). (y.user_id ≡ x.user_id) × (y.chat_ids ≡ x.chat_ids))
      (accepts (length x.frames)) (write_all-same accepts ms _) (refl, refl)

module _ (marshal : Event → Option String) where
  Heard-for :
      (log : List Event) (x y : Client) (m : String)
      → y.user_id ≡ x.user_id
      → y.chat_ids ≡ x.chat_ids
      → Heard marshal log x m
      → Heard marshal log y m
  unfolding is_member
  Heard-for log x y m u c h = record {
    event = h.event;
    logged = h.logged;
    encoded = h.encoded;
    member = rw c h.member;
    other = λ q. h.other (q ∙ u);
  }

  Heard-later :
      (e : Event) (log : List Event) (x : Client) (m : String)
      → Heard marshal log x m
      → Heard marshal (e ∷ log) x m
  Heard-later e log x m h = record {
    event = h.event;
    logged = mem-cons_of_mem e h.logged;
    encoded = h.encoded;
    member = h.member;
    other = h.other;
  }

  AllHeard-later :
      (e : Event) (log : List Event) (x : Client)
      → AllHeard marshal log x
      → AllHeard marshal (e ∷ log) x
  AllHeard-later e log x a =
      (All-map x.frames (Heard-later e log x) a.0, All-map x.send (Heard-later e log x) a.1)

  write_round-AllHeard :
      (accepts : ℕ → Bool) (log : List Event) (x : Client)
      → AllHeard marshal log x
      → AllHeard marshal log (write_round accepts x)
  unfolding write_round
  write_round-AllHeard accepts log x a =
      either_branch (AllHeard marshal log) x.writing
        (let y = write_all accepts x.send x in
          let (u, c) = write_all-same accepts x.send x in
          let (f, s) = write_all-All (Heard marshal log x) accepts x.send x a.0 a.1 in
          (
            All-map y.frames (λ m. Heard-for log x y m u c) f,
            All-map y.send (λ m. Heard-for log x y m u c) s,
          ))
        a

  -- One message more.
  grown :
      (log : List Event) (e : Event) (x : Client) (msg : String)
      → marshal e ≡ some msg
      → is_member e.chat_id x ≡ true
      → e.sender_id ≢ x.user_id
      → AllHeard marshal log x
      → AllHeard marshal (e ∷ log) (record x { send = x.send ++ msg ∷ [] })
  grown log e x msg m c ne a =
      let y : Client = record x { send = x.send ++ msg ∷ [] } in
      let (f, s) = AllHeard-later e log x a in
      let new : Heard marshal (e ∷ log) x msg = record {
        event = e;
        logged = mem-cons_self;
        encoded = m;
        member = c;
        other = ne;
      } in
      let s' = All-snoc (Heard marshal (e ∷ log) x) x.send msg s new in
      (
        All-map x.frames (λ k. Heard-for (e ∷ log) x y k refl refl) f,
        All-map y.send (λ k. Heard-for (e ∷ log) x y k refl refl) s',
      )

  broadcast-AllHeard :
      (e : Event) (log : List Event) (h : Hub) (q : Pointer)
      → IsHub h
      → AllHeard marshal log (h.clients q)
      → AllHeard marshal (e ∷ log) ((broadcast_to_chat marshal e.chat_id e e.sender_id h).clients q)
  unfolding broadcast_to_chat
  broadcast-AllHeard e log h q i a = elim (Option-cases (marshal e)) [
    | inl n ↦ rw (broadcast_to_chat, n) (AllHeard-later e log _ a)
    | inr (msg, m) ↦
        rw (broadcast_to_chat_lem marshal e.chat_id e e.sender_id h q m (i.distinct e.chat_id))
          (elim (Bool-cases (
            in_room q e.chat_id h
            && (not ((h.clients q).user_id == e.sender_id)
                && ltb (length (h.clients q).send) send_buffer_size))) [
                  | inl t ↦
                      let x = h.clients q in
                      rw t (
                        grown log e x msg m (i.subscribed q e.chat_id (ground arith)) (ground arith)
                          a)
                  | inr t ↦ rw t (AllHeard-later e log _ a)
                ])
  ]

  malformed_ignored : (p : Pointer) (h : Hub) → read_event marshal p none h ≡ h
  unfolding read_event
  malformed_ignored p h = refl

  foreign_ignored :
      (p : Pointer) (ce : ClientEvent) (h : Hub)
      → is_member ce.chat_id (h.clients p) ≡ false
      → read_event marshal p (some ce) h ≡ h
  unfolding read_event
  foreign_ignored p ce h m = rw (read_event, m) refl

  read_event-AllHeard :
      (p : Pointer) (ce : ClientEvent) (log : List Event) (h : Hub) (q : Pointer)
      → IsHub h
      → is_member ce.chat_id (h.clients p) ≡ true
      → AllHeard marshal log (h.clients q)
      → AllHeard marshal
          (envelope (h.clients p) ce ∷ log)
          ((read_event marshal p (some ce) h).clients q)
  unfolding read_event envelope
  read_event-AllHeard p ce log h q i m a =
      rw (read_event, m) (broadcast-AllHeard (envelope (h.clients p) ce) log h q i a)

  set_client-AllHeard :
      (p : Pointer) (x : Client) (log : List Event) (h : Hub) (q : Pointer)
      → AllHeard marshal log x
      → AllHeard marshal log (h.clients q)
      → AllHeard marshal log ((set_client p x h).clients q)
  unfolding set_client
  set_client-AllHeard p x log h q a b = either_branch (AllHeard marshal log) (p == q) a b

  -- Isolation and echo prevention: in every state that the hub reaches, each message that was written
  -- to a client or waits in its buffer is the encoding of an event that was broadcast before, whose
  -- chat is one that the client was connected with, and whose sender is another user.
  pub Reach-AllHeard :
      (accepts : Pointer → ℕ → Bool) (h : Hub) (log : List Event)
      → Reach marshal accepts h log
      → (q : Pointer) → AllHeard marshal log (h.clients q)
  unfolding new_hub dispatch new_client close write_pump
  Reach-AllHeard accepts h log start q = (tt, tt)
  Reach-AllHeard accepts h log (connect p u ids {h = h'} fresh r) q =
      rw (subscribe-clients p ids)
        (set_client-AllHeard p _ log h' q (tt, tt) (Reach-AllHeard accepts h' log r q))
  Reach-AllHeard accepts h log (malformed p {h = h'} r) q =
      rw malformed_ignored (Reach-AllHeard accepts h' log r q)
  Reach-AllHeard accepts h log (foreign p ce {h = h'} m r) q =
      rw (foreign_ignored p ce h' m) (Reach-AllHeard accepts h' log r q)
  Reach-AllHeard accepts h log (relay p ce {h = h'} {log = log'} m r) q =
      read_event-AllHeard p ce log' h' q (Reach-IsHub marshal accepts h' log' r) m
        (Reach-AllHeard accepts h' log' r q)
  Reach-AllHeard accepts h log (publish e {h = h'} {log = log'} r) q =
      broadcast-AllHeard e log' h' q (Reach-IsHub marshal accepts h' log' r)
        (Reach-AllHeard accepts h' log' r q)
  Reach-AllHeard accepts h log (write p {h = h'} r) q =
      set_client-AllHeard p _ log h' q
        (write_round-AllHeard (accepts p) log (h'.clients p) (Reach-AllHeard accepts h' log r p))
        (Reach-AllHeard accepts h' log r q)
  Reach-AllHeard accepts h log (leave p {h = h'} r) q =
      rw (unsubscribe-clients p (h'.clients p).chat_ids h') (Reach-AllHeard accepts h' log r q)
