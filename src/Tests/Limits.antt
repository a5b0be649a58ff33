-- ===== src/Tests/Limits.antt =====
-- The limiter with two requests in ten units of time, on four requests and a tick.
use vibechat.Delivery.RateLimit.Client.{client_ip}
use vibechat.Prelude.{suc, ◌+◌, ◌-◌, ◌≤◌, ◌≡◌, refl, List, [], ◌∷◌, none, arith}
use vibechat.Delivery.RateLimit.{Clients, Event, request, tick, served_to, keep_live}
use vibechat.Delivery.RateLimit.Window
use vibechat.Delivery.RateLimit.Window.{Within}

abbrev nobody : Clients
nobody ip = none

abbrev later : List Event
later = request "10.0.0.1" 3 ∷ request "10.0.0.2" 4 ∷ tick 5 ∷ request "10.0.0.1" 6 ∷ []

later-Within : Within (0 + 10) later
later-Within = (omega arith, (omega arith, (omega arith, (omega arith, tt))))

nobody-stale : keep_live 0 (nobody "10.0.0.1") ≡ none
unfolding keep_live
nobody-stale = refl

served_to-le_example : served_to 2 10 "10.0.0.1" (request "10.0.0.1" 0 ∷ later) nobody ≤ suc (2 - 1)
served_to-le_example = Window.served_to-le 2 10 "10.0.0.1" 0 later nobody nobody-stale later-Within

-- The port is cut off, also after an address with colons.
client_ip_of_v6 : client_ip "" "" "[::1]:80" ≡ "[::1]"
unfolding client_ip
client_ip_of_v6 = refl

client_ip_of_proxy : client_ip "" " 10.0.0.1 , 10.0.0.2" "10.0.0.9:80" ≡ "10.0.0.1"
unfolding client_ip
client_ip_of_proxy = refl
