-- ===== src/UseCase/Message/Pages.antt =====
-- internal/usecase/message/dto.go, `buildPageResult`: the page and its cursor.
use vibechat.Prelude.{
  Bool-cases, inl, inr, ℕ, suc, ◌≡◌, refl, List, [], ◌∷◌, ◌++◌, none, some, ltb, length, arith,
  if◌then◌else◌,
}
use vibechat.Domain.Message.{Message}
use vibechat.UseCase.Message.Dto.{next_cursor, build_page_result, last_of, cursor_of}

last_of-snoc : (ms : List Message) (m : Message) → last_of (ms ++ m ∷ []) ≡ some m
unfolding last_of
last_of-snoc [] m = refl
last_of-snoc (x ∷ []) m = refl
last_of-snoc (x ∷ y ∷ ms) m = last_of-snoc (y ∷ ms) m

-- With a limit of at least one a page is always built: the empty one without a cursor, and one that
-- ends in `m` with the cursor of `m`, if it has as many messages as the limit, and else without.
pub build_page_result_lem :
    (n : ℕ) (ms : List Message) (m : Message)
    → (build_page_result [] (suc n) ≡ some (record { messages = []; next_cursor = none }))
      × (build_page_result (ms ++ m ∷ []) (suc n)
          ≡ some (record {
            messages = ms ++ m ∷ [];
            next_cursor = if ltb (length (ms ++ m ∷ [])) (suc n) then none else some (cursor_of m);
          }))
unfolding build_page_result next_cursor
build_page_result_lem n ms m = (ground arith, page)
  where
    page :
        build_page_result (ms ++ m ∷ []) (suc n)
        ≡ some (record {
          messages = ms ++ m ∷ [];
          next_cursor = if ltb (length (ms ++ m ∷ [])) (suc n) then none else some (cursor_of m);
        })
    page = elim (Bool-cases (ltb (length (ms ++ m ∷ [])) (suc n))) [
      | inl e ↦ rw (build_page_result, next_cursor, e) refl
      | inr e ↦ rw (build_page_result, next_cursor, e, last_of-snoc ms m) refl
    ]
