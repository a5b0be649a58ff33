-- ===== src/Delivery/Ws/Rooms.antt =====
-- internal/delivery/ws/hub.go: who is in a room after clients come and go.
use vibechat.Prelude.{
  ◌≡◌, refl, ◌∙◌, Bool, false, not, ◌&&◌, ◌||◌, List, [], ◌∷◌, Option, none, some, arith, ◌==◌, any,
  ==_iff, Bool-cases, Option-cases, inl, inr,
}
use vibechat.Domain.User.{Uuid}
use vibechat.Delivery.Ws.{
  Pointer, Hub, members, insert, remove, set_room, subscribe, leave_room, unsubscribe,
}

-- A pointer stands in a list.
abbrev pub has : Pointer → List Pointer → Bool
has q ps = any (λ r. r == q) ps

abbrev pub in_room : Pointer → Uuid → Hub → Bool
in_room q c h = has q (members (h.rooms c))

-- A set: no pointer stands in it twice.
abbrev pub Distinct : List Pointer → Type 0
Distinct [] = Unit
Distinct (p ∷ ps) = (has p ps ≡ false) × Distinct ps

has-insert : (q p : Pointer) (ps : List Pointer) → has q (insert p ps) ≡ (has q ps || p == q)
unfolding insert
has-insert q p ps = elim (Bool-cases (has p ps)) [
  | inl e ↦ elim (Bool-cases (p == q)) [
    | inl s ↦ let same = (==_iff p q).0 s in rw (insert, e, s, ← same, e) refl
    | inr s ↦ rw (insert, e, s) (ground arith)
  ]
  | inr e ↦ rw (insert, e) (ground arith)
]

has-remove : (q p : Pointer) (ps : List Pointer) → has q (remove p ps) ≡ (has q ps && not (p == q))
unfolding remove
has-remove q p [] = refl
has-remove q p (r ∷ ps) = ground (arith, has-remove q p ps)

pub insert-Distinct : (p : Pointer) (ps : List Pointer) → Distinct ps → Distinct (insert p ps)
unfolding insert
insert-Distinct p ps d = elim (Bool-cases (has p ps)) [
  | inl e ↦ rw (insert, e) d
  | inr e ↦ rw (insert, e) (e, d)
]

pub remove-Distinct : (p : Pointer) (ps : List Pointer) → Distinct ps → Distinct (remove p ps)
unfolding remove
remove-Distinct p [] d = tt
remove-Distinct p (r ∷ ps) d = ground (arith, has-remove r p ps, remove-Distinct p ps)

-- A subscription adds the client to the rooms that it names, and to no other.
pub subscribe-in_room :
    (p : Pointer) (ids : List Uuid) (q : Pointer) (c : Uuid) (h : Hub)
    → in_room q c (subscribe p ids h) ≡ (in_room q c h || ((p == q) && any (λ i. i == c) ids))
unfolding subscribe set_room members
subscribe-in_room p [] q c h = ground arith
subscribe-in_room p (id ∷ ids) q c h = ground (
  arith,
  subscribe-in_room p ids q c (set_room id (insert p (members (h.rooms id))) h),
  has-insert q p (members (h.rooms id)),
)

leave_room-in_room :
    (p : Pointer) (id : Uuid) (q : Pointer) (c : Uuid) (h : Hub)
    → in_room q c (leave_room p id (h.rooms id) h) ≡ (in_room q c h && not ((p == q) && (id == c)))
unfolding leave_room set_room members
leave_room-in_room p id q c h = elim (Option-cases (h.rooms id)) [
  | inl e ↦ ground arith
  | inr (ps, e) ↦ ground (arith, has-remove q p ps)
]

-- A client that leaves rooms is in none of those, and every other client stays where it was.
pub unsubscribe-in_room :
    (p : Pointer) (ids : List Uuid) (q : Pointer) (c : Uuid) (h : Hub)
    → in_room q c (unsubscribe p ids h) ≡ (in_room q c h && not ((p == q) && any (λ i. i == c) ids))
unfolding unsubscribe
unsubscribe-in_room p [] q c h = ground arith
unsubscribe-in_room p (id ∷ ids) q c h = ground (
  arith,
  leave_room-in_room p id q c h,
  unsubscribe-in_room p ids q c (leave_room p id (h.rooms id) h),
)

pub subscribe-clients :
    (p : Pointer) (ids : List Uuid) (h : Hub) → (subscribe p ids h).clients ≡ h.clients
unfolding subscribe set_room
subscribe-clients p [] h = refl
subscribe-clients p (id ∷ ids) h =
    subscribe-clients p ids (set_room id (insert p (members (h.rooms id))) h)

set_room-Distinct :
    (id : Uuid) (ps : List Pointer) (h : Hub)
    → Distinct ps
    → ((c : Uuid) → Distinct (members (h.rooms c)))
    → (c : Uuid) → Distinct (members ((set_room id ps h).rooms c))
unfolding set_room members
set_room-Distinct id ps h d ds c = elim (Bool-cases (id == c)) [
  | inl e ↦ rw e d
  | inr e ↦ rw e (ds c)
]

pub subscribe-Distinct :
    (p : Pointer) (ids : List Uuid) (h : Hub)
    → ((c : Uuid) → Distinct (members (h.rooms c)))
    → (c : Uuid) → Distinct (members ((subscribe p ids h).rooms c))
unfolding subscribe
subscribe-Distinct p [] h d = d
subscribe-Distinct p (id ∷ ids) h d =
    subscribe-Distinct p ids _ (set_room-Distinct id _ h (insert-Distinct p _ (d id)) d)

leave_room-Distinct :
    (p : Pointer) (id : Uuid) (room : Option (List Pointer)) (h : Hub)
    → Distinct (members room)
    → ((c : Uuid) → Distinct (members (h.rooms c)))
    → (c : Uuid) → Distinct (members ((leave_room p id room h).rooms c))
unfolding leave_room members
leave_room-Distinct p id none h d ds = ds
leave_room-Distinct p id (some ps) h d ds = set_room-Distinct id _ h (remove-Distinct p ps d) ds

pub unsubscribe-Distinct :
    (p : Pointer) (ids : List Uuid) (h : Hub)
    → ((c : Uuid) → Distinct (members (h.rooms c)))
    → (c : Uuid) → Distinct (members ((unsubscribe p ids h).rooms c))
unfolding unsubscribe
unsubscribe-Distinct p [] h d = d
unsubscribe-Distinct p (id ∷ ids) h d =
    unsubscribe-Distinct p ids _ (leave_room-Distinct p id (h.rooms id) h (d id) d)

leave_room-clients :
    (p : Pointer) (id : Uuid) (room : Option (List Pointer)) (h : Hub)
    → (leave_room p id room h).clients ≡ h.clients
unfolding leave_room set_room
leave_room-clients p id none h = refl
leave_room-clients p id (some ps) h = refl

pub unsubscribe-clients :
    (p : Pointer) (ids : List Uuid) (h : Hub) → (unsubscribe p ids h).clients ≡ h.clients
unfolding unsubscribe
unsubscribe-clients p [] h = refl
unsubscribe-clients p (id ∷ ids) h =
    unsubscribe-clients p ids _ ∙ leave_room-clients p id (h.rooms id) h
