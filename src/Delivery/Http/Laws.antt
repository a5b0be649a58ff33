-- ===== src/Delivery/Http/Laws.antt =====
-- What the pieces of a handler keep: each answers in every state without a panic, and a part of the request that
-- does not parse changes nothing.
use vibechat.Prelude.{◌≡◌, ◌≢◌, refl, Bool, true, false, Option, none, some, if◌then◌else◌}
use vibechat.Exec.{Result, ok, err, Exec, pure, try, ◌>>=◌}
use vibechat.Delivery.Http.{Response, bad_request, panicked, reply, respond, parsed}

-- An answer that is neither a panic nor "bad request".
abbrev pub IsReply : {A : Type 0} → Response A → Type 0
IsReply r = (r ≢ panicked) × (r ≢ bad_request)

-- An answer in every state, and no panic, with the state as it was if the answer is "bad request".
unfoldable pub Answers : {S A : Type 0} → Exec S (Response A) → Type 0
Answers {S = S} {A = A} m =
    (s : S) → (r : Response A) × ((m s).0 ≡ ok r) × (r ≢ panicked) × (r ≡ bad_request → (m s).1 ≡ s)

reply-IsReply :
    {A B : Type 0} (f : A → Response B) (r : Result A)
    → ((a : A) → r ≡ ok a → IsReply (f a))
    → IsReply (reply f r)
unfolding reply
reply-IsReply f (ok a) h = h a refl
reply-IsReply f (err x) h = (λ e. absurd (cc), λ e. absurd (cc))

module _ {S A B : Type 0} where
  pub parsed-Answers :
      (o : Option A) (f : A → Exec S (Response B))
      → ((a : A) → Answers (f a))
      → Answers (parsed o f)
  unfolding Answers parsed pure
  parsed-Answers none f h = λ s. (bad_request, refl, λ e. absurd (cc), λ e. refl)
  parsed-Answers (some a) f h = h a

  -- What the service may return decides.
  pub result-Answers :
      (f : A → Response B) (m : Exec S A)
      → ((s : S) (a : A) → (m s).0 ≡ ok a → IsReply (f a))
      → Answers (respond f m)
  unfolding Answers respond try pure ◌>>=◌
  result-Answers f m h s =
      let r = reply-IsReply f (m s).0 (h s) in (reply f (m s).0, refl, r.0, λ e. absurd (r.1 e))

  pub respond-Answers :
      (f : A → Response B) (m : Exec S A) → ((a : A) → IsReply (f a)) → Answers (respond f m)
  respond-Answers f m h = result-Answers f m (λ s a e. h a)

-- A request that is refused for another reason.
pub refused-Answers :
    {S A : Type 0} (b : Bool) (m : Exec S (Response A))
    → Answers m
    → Answers (if b then pure bad_request else m)
unfolding Answers pure
refused-Answers true m h = λ s. (bad_request, refl, λ e. absurd (cc), λ e. refl)
refused-Answers false m h = h
