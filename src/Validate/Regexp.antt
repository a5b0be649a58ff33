-- ===== src/Validate/Regexp.antt =====
-- The regular expressions of utils/validate/validate.go need this much of Go's `regexp`: character
-- classes, sequences and repetitions, matched against a whole text by derivatives.
use vibechat.Prelude.{ℕ, Bool, true, false, ◌&&◌, ◌||◌, List, [], ◌∷◌, if◌then◌else◌}

pub data Regex : Type 0 where
  never : Regex
  empty : Regex
  class : (ℕ → Bool) → Regex
  seq : Regex → Regex → Regex
  alt : Regex → Regex → Regex
  star : Regex → Regex

unfoldable pub nullable : Regex → Bool
nullable never = false
nullable empty = true
nullable (class p) = false
nullable (seq r s) = nullable r && nullable s
nullable (alt r s) = nullable r || nullable s
nullable (star r) = true

-- What must follow after the character `c`.
unfoldable pub after : ℕ → Regex → Regex
unfolding nullable
after c never = never
after c empty = never
after c (class p) = if p c then empty else never
after c (seq r s) =
    let rest = seq (after c r) s in if nullable r then alt rest (after c s) else rest
after c (alt r s) = alt (after c r) (after c s)
after c (star r) = seq (after c r) (star r)

-- `^r$`
unfoldable pub matches : Regex → List ℕ → Bool
unfolding nullable after
matches r [] = nullable r
matches r (c ∷ cs) = matches (after c r) cs

-- `r+`
abbrev pub plus : Regex → Regex
plus r = seq r (star r)
