-- ===== src/Delivery/Ws/Reach.antt =====
-- internal/delivery/ws: the states that the hub reaches as clients connect, send, are written to and
-- leave, in any order, and what holds in each of them. A call of the hub is one step: its sends go to
-- channels of different clients.
use vibechat.Prelude.{
  ℕ, ◌≤◌, ◌≡◌, String, Bool, true, false, List, [], ◌∷◌, Option, none, some, length,
}
use vibechat.Domain.User.{Uuid}
use vibechat.Delivery.Ws.{
  Pointer, Event, ClientEvent, Hub, new_hub, members, dispatch, is_member, envelope, read_event,
  new_client, close, write_pump, send_buffer_size,
}
use vibechat.Delivery.Ws.Rooms.{in_room, Distinct}

-- A state, with the events that were broadcast on the way, the latest first. `accepts` says which
-- frames the connection of a client takes.
pub data Reach (marshal : Event → Option String) (accepts : Pointer → ℕ → Bool)
    : Hub → List Event → Type 0 where
  start : Reach marshal accepts new_hub []
  connect :
      (p : Pointer) (u : Uuid) (ids : List Uuid) {h : Hub} {log : List Event}
      → ((c : Uuid) → in_room p c h ≡ false)
      → Reach marshal accepts h log
      → Reach marshal accepts (new_client p u ids h) log
  malformed :
      (p : Pointer) {h : Hub} {log : List Event}
      → Reach marshal accepts h log
      → Reach marshal accepts (read_event marshal p none h) log
  foreign :
      (p : Pointer) (ce : ClientEvent) {h : Hub} {log : List Event}
      → is_member ce.chat_id (h.clients p) ≡ false
      → Reach marshal accepts h log
      → Reach marshal accepts (read_event marshal p (some ce) h) log
  relay :
      (p : Pointer) (ce : ClientEvent) {h : Hub} {log : List Event}
      → is_member ce.chat_id (h.clients p) ≡ true
      → Reach marshal accepts h log
      → Reach marshal accepts (read_event marshal p (some ce) h) (envelope (h.clients p) ce ∷ log)
  publish :
      (e : Event) {h : Hub} {log : List Event}
      → Reach marshal accepts h log
      → Reach marshal accepts (dispatch marshal (e ∷ []) h) (e ∷ log)
  write :
      (p : Pointer) {h : Hub} {log : List Event}
      → Reach marshal accepts h log
      → Reach marshal accepts (write_pump (accepts p) p h) log
  leave :
      (p : Pointer) {h : Hub} {log : List Event}
      → Reach marshal accepts h log
      → Reach marshal accepts (close p h) log

pub record IsHub (h : Hub) : Type 0 where
  pub distinct : (c : Uuid) → Distinct (members (h.rooms c))
  pub bounded : (p : Pointer) → length (h.clients p).send ≤ send_buffer_size
  pub subscribed :
      (p : Pointer) (c : Uuid) → in_room p c h ≡ true → is_member c (h.clients p) ≡ true
