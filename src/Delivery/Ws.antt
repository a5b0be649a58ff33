-- ===== src/Delivery/Ws.antt =====
-- internal/delivery/ws: the rooms of the hub, the clients with their buffers, and the two pumps of a
-- client. A client is named by the number of its pointer. `encoding/json` is a parameter.
pub mod Rooms
pub mod Broadcast
pub mod Reach
pub mod Invariant
pub mod Heard
pub mod Pump
pub mod Left
pub mod Handler
use vibechat.Prelude.{
  ℕ, suc, String, Bool, true, false, List, [], ◌∷◌, ◌++◌, Option, none, some, length, ltb, ◌==◌,
  any, where_, not, if◌then◌else◌,
}
use vibechat.Domain.User.{Uuid}

abbrev pub Pointer : Type 0
Pointer = ℕ

-- The routing envelope; the payload is raw JSON.
pub record Event : Type 0 where
  pub type : String
  pub payload : String
  pub sender_id : Uuid
  pub chat_id : Uuid

pub record ClientEvent : Type 0 where
  pub type : String
  pub chat_id : Uuid
  pub payload : String

abbrev pub send_buffer_size : ℕ
send_buffer_size = 256

-- `send` is the buffered channel, oldest first. `frames` are the messages that the connection has
-- taken, and `writing` says that the write pump runs.
pub record Client : Type 0 where
  pub user_id : Uuid
  pub chat_ids : List Uuid
  pub send : List String
  pub frames : List String
  pub writing : Bool

-- `chatClients`, and the memory of the clients. A room is a set: each pointer stands in it once.
pub record Hub : Type 0 where
  pub rooms : Uuid → Option (List Pointer)
  pub clients : Pointer → Client

-- A pointer that no client has yet.
abbrev no_client : Client
no_client = record { user_id = 0; chat_ids = []; send = []; frames = []; writing = false }

-- `NewHub`
unfoldable pub new_hub : Hub
new_hub = record { rooms = λ id. none; clients = λ p. no_client }

unfoldable pub set_room : Uuid → List Pointer → Hub → Hub
set_room id ps h = record h { rooms = λ c. if id == c then some ps else h.rooms c }

unfoldable pub set_client : Pointer → Client → Hub → Hub
set_client p x h = record h { clients = λ q. if p == q then x else h.clients q }

-- `room`: LoadOrStore of an empty set.
unfoldable pub members : Option (List Pointer) → List Pointer
members none = []
members (some ps) = ps

-- `Store` on the set of a room.
unfoldable pub insert : Pointer → List Pointer → List Pointer
insert p ps = if any (λ q. q == p) ps then ps else p ∷ ps

unfoldable pub remove : Pointer → List Pointer → List Pointer
remove p ps = where_ (λ q. not (q == p)) ps

unfoldable pub subscribe : Pointer → List Uuid → Hub → Hub
unfolding set_room members insert
subscribe p [] h = h
subscribe p (id ∷ ids) h = subscribe p ids (set_room id (insert p (members (h.rooms id))) h)

unfoldable pub leave_room : Pointer → Uuid → Option (List Pointer) → Hub → Hub
unfolding set_room remove
leave_room p id none h = h
leave_room p id (some ps) h = set_room id (remove p ps) h

unfoldable pub unsubscribe : Pointer → List Uuid → Hub → Hub
unfolding leave_room
unsubscribe p [] h = h
unsubscribe p (id ∷ ids) h = unsubscribe p ids (leave_room p id (h.rooms id) h)

-- `select { case client.send <- data: default: }`
unfoldable pub offer : String → Client → Client
offer msg x =
    if ltb (length x.send) send_buffer_size then record x { send = x.send ++ msg ∷ [] } else x

-- The body of `Range`.
unfoldable pub offer_unless : String → Uuid → Client → Client
unfolding offer
offer_unless msg exclude x = if x.user_id == exclude then x else offer msg x

unfoldable pub fan_out : String → Uuid → List Pointer → Hub → Hub
unfolding offer_unless set_client
fan_out msg exclude [] h = h
fan_out msg exclude (p ∷ ps) h =
    fan_out msg exclude ps (set_client p (offer_unless msg exclude (h.clients p)) h)

unfoldable pub is_member : Uuid → Client → Bool
is_member chat_id x = any (λ c. c == chat_id) x.chat_ids

-- The envelope of an event that a client sends.
unfoldable pub envelope : Client → ClientEvent → Event
envelope x ce = record {
  type = ce.type;
  payload = ce.payload;
  sender_id = x.user_id;
  chat_id = ce.chat_id;
}

module _ (marshal : Event → Option String) where
  unfoldable pub broadcast_to_chat : Uuid → Event → Uuid → Hub → Hub
  unfolding fan_out members
  broadcast_to_chat chat_id e exclude h = elim (marshal e) [
    | none ↦ h
    | some msg ↦ fan_out msg exclude (members (h.rooms chat_id)) h
  ]

  -- The events that come before the channel is closed or the context ends.
  unfoldable pub dispatch : List Event → Hub → Hub
  unfolding broadcast_to_chat
  dispatch [] h = h
  dispatch (e ∷ es) h = dispatch es (broadcast_to_chat e.chat_id e e.sender_id h)

  -- One round of `readPump` on a message; one that does not decode is skipped.
  unfoldable pub read_event : Pointer → Option ClientEvent → Hub → Hub
  unfolding broadcast_to_chat is_member envelope
  read_event p none h = h
  read_event p (some ce) h =
      let x = h.clients p in
      if not (is_member ce.chat_id x)
      then h
      else broadcast_to_chat ce.chat_id (envelope x ce) x.user_id h

-- `NewClient`, under a pointer that is new.
unfoldable pub new_client : Pointer → Uuid → List Uuid → Hub → Hub
unfolding subscribe set_client
new_client p user_id chat_ids h = subscribe p chat_ids (
    set_client p
      (record { user_id = user_id; chat_ids = chat_ids; send = []; frames = []; writing = true }) h)

-- The deferred calls of `readPump`.
unfoldable pub close : Pointer → Hub → Hub
unfolding unsubscribe
close p h = unsubscribe p (h.clients p).chat_ids h

-- The messages that one round of `writePump` finds in the buffer. `accepts` says whether the
-- connection takes the frame with each number; the pump ends at the first that it does not take,
-- and that message is lost.
unfoldable pub write_all : (ℕ → Bool) → List String → Client → Client
write_all accepts [] x = record x { send = [] }
write_all accepts (m ∷ ms) x =
    let rest = write_all accepts ms (record x { frames = x.frames ++ m ∷ [] }) in
    if accepts (length x.frames) then rest else record x { send = ms; writing = false }

unfoldable pub write_round : (ℕ → Bool) → Client → Client
unfolding write_all
write_round accepts x = if x.writing then write_all accepts x.send x else x

unfoldable pub write_pump : (ℕ → Bool) → Pointer → Hub → Hub
unfolding write_round set_client
write_pump accepts p h = set_client p (write_round accepts (h.clients p)) h
