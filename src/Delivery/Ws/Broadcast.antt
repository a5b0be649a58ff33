-- ===== src/Delivery/Ws/Broadcast.antt =====
-- internal/delivery/ws/hub.go: who gets an event.
use vibechat.Prelude.{
  ◌≡◌, refl, ◌∙◌, String, not, ◌&&◌, List, [], ◌∷◌, ◌++◌, Option, some, arith, ◌==◌, ==_iff,
  ==_refl, ltb, length, if◌then◌else◌, Bool-cases, Option-cases, inl, inr,
}
use vibechat.Domain.User.{Uuid}
use vibechat.Delivery.Ws.{
  Pointer, Event, Hub, members, set_client, offer, offer_unless, fan_out, broadcast_to_chat,
  send_buffer_size,
}
use vibechat.Delivery.Ws.Rooms.{has, in_room, Distinct}

pub fan_out-rooms :
    (msg : String) (u : Uuid) (ps : List Pointer) (h : Hub) → (fan_out msg u ps h).rooms ≡ h.rooms
unfolding fan_out set_client
fan_out-rooms msg u [] h = refl
fan_out-rooms msg u (p ∷ ps) h =
    fan_out-rooms msg u ps (set_client p (offer_unless msg u (h.clients p)) h)

-- Each client of the list is offered the message once.
fan_out-client :
    (msg : String) (u : Uuid) (ps : List Pointer) (h : Hub) (q : Pointer)
    → Distinct ps
    → (fan_out msg u ps h).clients q
      ≡ (if has q ps then offer_unless msg u (h.clients q) else h.clients q)
unfolding fan_out set_client
fan_out-client msg u [] h q d = refl
fan_out-client msg u (p ∷ ps) h q d =
    let rest = fan_out-client msg u ps (set_client p (offer_unless msg u (h.clients p)) h) q d.1 in
    elim (Bool-cases (p == q)) [
      | inl e ↦ let s = (==_iff p q).0 e in rest ∙ rw (← s, d.0, ==_refl p) refl
      | inr e ↦ rest ∙ rw e refl
    ]

module _ (marshal : Event → Option String) where
  pub broadcast-rooms :
      (c : Uuid) (e : Event) (u : Uuid) (h : Hub)
      → (broadcast_to_chat marshal c e u h).rooms ≡ h.rooms
  unfolding broadcast_to_chat
  broadcast-rooms c e u h = elim (Option-cases (marshal e)) [
    | inl n ↦ rw (broadcast_to_chat, n) refl
    | inr (msg, m) ↦ rw (broadcast_to_chat, m) (fan_out-rooms msg u (members (h.rooms c)) h)
  ]

  -- An event that can be encoded is put once at the end of the buffer of each client in the room of
  -- its chat, unless the client belongs to the excluded user or its buffer is full; every other
  -- client, and the rest of these, is left as it was.
  pub broadcast_to_chat_lem :
      (c : Uuid) (e : Event) (u : Uuid) (h : Hub) {msg : String} (q : Pointer)
      → marshal e ≡ some msg
      → Distinct (members (h.rooms c))
      → let x = h.clients q in
        (broadcast_to_chat marshal c e u h).clients q ≡ (
          if in_room q c h && (not (x.user_id == u) && ltb (length x.send) send_buffer_size)
          then record x { send = x.send ++ msg ∷ [] }
          else x)
  unfolding broadcast_to_chat offer_unless offer
  broadcast_to_chat_lem c e u h {msg = msg} q m d =
      rw (broadcast_to_chat, m) (fan_out-client msg u (members (h.rooms c)) h q d ∙ ground arith)
