-- ===== src/Tests/Sockets.antt =====
-- The theorems about the hub: Ann, Bob and Cid are connected to chat 10, and Dan to chat 11.
use vibechat.Prelude.{ℕ, ◌≡◌, refl, String, Bool, true, false, [], ◌∷◌, Option, some, arith}
use vibechat.Delivery.Ws.{
  Pointer, Event, Hub, new_hub, new_client, broadcast_to_chat, dispatch, write_all, write_pump,
  close, members, subscribe, set_room, set_client, insert,
}
use vibechat.Delivery.Ws.Broadcast
use vibechat.Delivery.Ws.Reach.{Reach, start, connect, publish, IsHub}
use vibechat.Delivery.Ws.Invariant
use vibechat.Delivery.Ws.Heard
use vibechat.Delivery.Ws.Heard.{AllHeard}
use vibechat.Delivery.Ws.Pump
use vibechat.Delivery.Ws.Pump.{Written, wanted}
use vibechat.Delivery.Ws.Left

-- The encoding leaves out who sent an event and where.
marshal : Event → Option String
marshal e = some e.payload

abbrev accepts : Pointer → ℕ → Bool
accepts p n = true

abbrev hub : Hub
hub = new_client 3 33 (10 ∷ []) (new_client 2 22 (10 ∷ []) (new_client 1 11 (10 ∷ []) new_hub))

hub-Reach : Reach marshal accepts hub []
unfolding new_client new_hub subscribe set_room set_client insert members
hub-Reach =
    connect 3 33 (10 ∷ []) (λ c. ground arith)
      (connect 2 22 (10 ∷ []) (λ c. ground arith) (connect 1 11 (10 ∷ []) (λ c. refl) start))

abbrev typing : Event
typing = record { type = "typing"; payload = "{}"; sender_id = 11; chat_id = 10 }

broadcast_to_chat_lem_example :
    (broadcast_to_chat marshal 10 typing 11 hub).clients 2
    ≡ record (hub.clients 2) { send = "{}" ∷ [] }
unfolding marshal new_client new_hub subscribe set_room set_client insert members
broadcast_to_chat_lem_example =
    Broadcast.broadcast_to_chat_lem marshal 10 typing 11 hub 2 refl (refl, (refl, (refl, tt)))

Reach-IsHub_example : IsHub hub
Reach-IsHub_example = Invariant.Reach-IsHub marshal accepts hub [] hub-Reach

abbrev told : Hub
told = dispatch marshal (typing ∷ []) hub

Reach-AllHeard_example : AllHeard marshal (typing ∷ []) (told.clients 2)
Reach-AllHeard_example =
    Heard.Reach-AllHeard marshal accepts told (typing ∷ []) (publish typing hub-Reach) 2

write_all-Written_example :
    Written
      (λ n. false)
      (told.clients 2)
      ("{}" ∷ [])
      (write_all (λ n. false) ("{}" ∷ []) (told.clients 2))
write_all-Written_example = Pump.write_all-Written (λ n. false) ("{}" ∷ []) (told.clients 2)

published-written_example :
    ((write_pump (accepts 2) 2 (dispatch marshal (typing ∷ []) hub)).clients 2).frames ≡ "{}" ∷ []
unfolding marshal new_client new_hub subscribe set_room set_client insert members wanted
published-written_example =
    Pump.published-written marshal accepts hub [] (typing ∷ []) 2 hub-Reach (λ n. refl) refl
      (omega arith)

closed-silent_example : (dispatch marshal (typing ∷ []) (close 2 hub)).clients 2 ≡ hub.clients 2
closed-silent_example = Left.closed-silent marshal accepts hub [] (typing ∷ []) 2 hub-Reach
