-- ===== src/UseCase/Chat/NextOwner.antt =====
-- internal/usecase/chat/chat.go, `nextOwner`.
use vibechat.Prelude.{
  ◌≡◌, refl, Bool, not, ◌&&◌, List, [], ◌∷◌, Option, none, some, ◌==◌, find_first, arith,
}
use vibechat.Domain.User.{Uuid}
use vibechat.Domain.Chat.{ChatMember, is_admin}
use vibechat.UseCase.Chat.Service.{next_owner, next_owner_from}

abbrev pub is_other : Uuid → ChatMember → Bool
is_other u m = not (m.user_id == u)

abbrev pub is_other_admin : Uuid → ChatMember → Bool
is_other_admin u m = is_other u m && is_admin m.role

abbrev pub first_of : Option ChatMember → Option ChatMember → Option ChatMember
first_of none b = b
first_of (some m) b = some m

next_owner_from_lem :
    (f : Option ChatMember) (ms : List ChatMember) (u : Uuid)
    → next_owner_from f ms u
      ≡ first_of (find_first (is_other_admin u) ms) (first_of f (find_first (is_other u) ms))
unfolding next_owner_from
next_owner_from_lem none [] u = refl
next_owner_from_lem (some m) [] u = refl
next_owner_from_lem none (m ∷ ms) u =
    ground (arith, next_owner_from_lem none ms u, next_owner_from_lem (some m) ms u)
next_owner_from_lem (some f) (m ∷ ms) u = ground (arith, next_owner_from_lem (some f) ms u)

-- The member who takes a chat over is the first admin of the list other than the one who leaves,
-- and without such an admin the first other member.
pub next_owner_lem :
    (ms : List ChatMember) (u : Uuid)
    → next_owner ms u ≡ first_of (find_first (is_other_admin u) ms) (find_first (is_other u) ms)
unfolding next_owner
next_owner_lem ms u = next_owner_from_lem none ms u
