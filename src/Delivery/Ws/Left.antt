-- ===== src/Delivery/Ws/Left.antt =====
-- internal/delivery/ws: what a client gets after it has left.
use vibechat.Prelude.{
  ℕ, ap, ◌≡◌, refl, ◌∙◌, String, Bool, false, not, ◌&&◌, List, [], ◌∷◌, Option, arith, ◌==◌,
  ==_refl, ltb, length, Option-cases, inl, inr, if_false,
}
use vibechat.Domain.User.{Uuid}
use vibechat.Delivery.Ws.{
  Pointer, Event, Hub, members, dispatch, is_member, close, send_buffer_size,
}
use vibechat.Delivery.Ws.Rooms.{
  in_room, Distinct, unsubscribe-in_room, unsubscribe-clients, unsubscribe-Distinct,
}
use vibechat.Delivery.Ws.Broadcast.{broadcast-rooms, broadcast_to_chat_lem}
use vibechat.Delivery.Ws.Reach.{Reach, IsHub}
use vibechat.Delivery.Ws.Invariant.{Reach-IsHub}
use vibechat.Delivery.Ws.Pump.{dispatch-cons, unsent}

module _ (marshal : Event → Option String) where
  outside :
      (es : List Event) (h : Hub) (p : Pointer)
      → ((c : Uuid) → Distinct (members (h.rooms c)))
      → ((c : Uuid) → in_room p c h ≡ false)
      → (dispatch marshal es h).clients p ≡ h.clients p
  unfolding dispatch
  outside [] h p d out = refl
  outside (e ∷ es) h p d out = elim (Option-cases (marshal e)) [
    | inl n ↦ rw (dispatch-cons, unsent marshal e h n) (outside es h p d out)
    | inr (m, f) ↦
        let rooms = broadcast-rooms marshal e.chat_id e e.sender_id h in
        let x = h.clients p in
        let refused : (in_room p e.chat_id h
              && (not (x.user_id == e.sender_id) && ltb (length x.send) send_buffer_size))
            ≡ false =
          let o = out e.chat_id in ground arith in
        rw dispatch-cons (
          outside es _ p (rw rooms d) (rw rooms out)
          ∙ broadcast_to_chat_lem marshal e.chat_id e e.sender_id h p f (d e.chat_id)
          ∙ if_false _ _ _ refused)
  ]

closed-in_room : (h : Hub) (p : Pointer) (c : Uuid) → IsHub h → in_room p c (close p h) ≡ false
unfolding close is_member
closed-in_room h p c i =
    let e = unsubscribe-in_room p (h.clients p).chat_ids p c h in
    e ∙ ground (arith, ==_refl p, i.subscribed p c)

closed-Distinct :
    (h : Hub) (p : Pointer) → IsHub h → (c : Uuid) → Distinct (members ((close p h).rooms c))
unfolding close
closed-Distinct h p i = unsubscribe-Distinct p (h.clients p).chat_ids h i.distinct

closed-clients : (h : Hub) (p : Pointer) → (close p h).clients ≡ h.clients
unfolding close
closed-clients h p = unsubscribe-clients p (h.clients p).chat_ids h

-- After a client of a reachable state has left, no event that is published reaches its buffer.
pub closed-silent :
    (marshal : Event → Option String) (accepts : Pointer → ℕ → Bool) (h : Hub) (log es : List Event)
    (p : Pointer)
    → Reach marshal accepts h log
    → (dispatch marshal es (close p h)).clients p ≡ h.clients p
closed-silent marshal accepts h log es p r =
    let i = Reach-IsHub marshal accepts h log r in
    outside marshal es (close p h) p (closed-Distinct h p i) (λ c. closed-in_room h p c i)
    ∙ ap (λ f. f p) (closed-clients h p)
