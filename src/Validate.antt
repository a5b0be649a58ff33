-- ===== src/Validate.antt =====
-- utils/validate/validate.go: the chain of checks that keeps the first failure, and the tests on
-- texts. A Go string is taken as the text that it encodes; `runes` are its code points.
pub mod Regexp
use Prim.Native.Char.{code}
use mathlib.Core.List.{reverse}
use vibechat.Prelude.{
  ℕ, String, Bool, true, false, not, ◌&&◌, ◌||◌, List, [], ◌∷◌, Option, none, some, leb, ◌==◌,
  str_eq, if◌then◌else◌, length, ℤ, leb_ℤ,
}
use vibechat.Domain.Errors.{Error, validation}
use vibechat.Exec.{Result, ok, err}
use vibechat.Validate.Regexp.{Regex, class, seq, alt, star, empty, plus, matches}

-- `V`: the first failure, if there is one.
abbrev pub V : Type 0
V = Option Error

abbrev pub new : V
new = none

unfoldable pub check : V → Bool → String → V
check none cond msg = if cond then none else some (validation msg)
check (some e) cond msg = some e

-- `Err`
unfoldable pub result : V → Result (Unit {0})
result none = ok tt
result (some e) = err e

unfoldable pub runes : String → List ℕ
runes String.[] = []
runes (String.◌∷◌ c s) = code c ∷ runes s

unfoldable pub min_len : String → ℕ → Bool
unfolding runes
min_len s n = leb n (length (runes s))

unfoldable pub max_len : String → ℕ → Bool
unfolding runes
max_len s n = leb (length (runes s)) n

between : ℕ → ℕ → ℕ → Bool
between lo hi c = leb lo c && leb c hi

-- `[a-zA-Z0-9]`
unfoldable pub is_alnum_rune : ℕ → Bool
unfolding between
is_alnum_rune c = between b'a' b'z' c || between b'A' b'Z' c || between b'0' b'9' c

-- `[a-z]` under `(?i)`: the long s and the Kelvin sign fold to letters too.
unfoldable pub is_letter_fold : ℕ → Bool
unfolding between
is_letter_fold c = between b'a' b'z' c || between b'A' b'Z' c || c == 0x17f || c == 0x212a

-- `[a-z0-9.\-]` and `[a-z0-9._%+\-]`
is_domain_rune : ℕ → Bool
unfolding is_letter_fold between
is_domain_rune c = is_letter_fold c || between b'0' b'9' c || c == b'.' || c == b'-'

is_local_rune : ℕ → Bool
unfolding is_domain_rune
is_local_rune c = is_domain_rune c || c == b'_' || c == b'%' || c == b'+'

-- `\S`
is_visible_rune : ℕ → Bool
is_visible_rune c = not (between 9 10 c || between 12 13 c || c == 32)

rune : ℕ → Regex
rune c = class (λ x. x == c)

literal : List ℕ → Regex → Regex
unfolding rune
literal [] r = r
literal (c ∷ cs) r = seq (rune c) (literal cs r)

unfoldable pub alphanum_re : Regex
unfolding is_alnum_rune
alphanum_re = plus (class is_alnum_rune)

email_re : Regex
unfolding is_local_rune is_domain_rune is_letter_fold rune
email_re = seq (plus (class is_local_rune)) (
    seq (rune b'@') (
      seq (plus (class is_domain_rune))
        (seq (rune b'.') (seq (class is_letter_fold) (plus (class is_letter_fold))))))

url_re : Regex
unfolding is_visible_rune rune literal runes between
url_re =
    literal (runes "http")
      (seq (alt (rune b's') empty) (literal (runes "://") (plus (class is_visible_rune))))

unfoldable pub is_alphanumeric : String → Bool
unfolding alphanum_re matches runes
is_alphanumeric s = not (str_eq s "") && matches alphanum_re (runes s)

unfoldable pub is_email : String → Bool
unfolding email_re matches runes
is_email s = matches email_re (runes s)

unfoldable pub is_url : String → Bool
unfolding url_re matches runes
is_url s = matches url_re (runes s)

unfoldable pub one_of : String → List String → Bool
one_of s [] = false
one_of s (a ∷ as') = str_eq a s || one_of s as'

-- `unicode.IsSpace`
unfoldable pub is_space_rune : ℕ → Bool
unfolding between
is_space_rune c =
    between 9 13 c
    || c == 32
    || c == 0x85
    || c == 0xa0
    || c == 0x1680
    || between 0x2000 0x200a c
    || c == 0x2028
    || c == 0x2029
    || c == 0x202f
    || c == 0x205f
    || c == 0x3000

trim_left : List ℕ → List ℕ
unfolding is_space_rune
trim_left [] = []
trim_left (c ∷ cs) = let rest = trim_left cs in if is_space_rune c then rest else c ∷ cs

is_null : List ℕ → Bool
is_null [] = true
is_null (c ∷ cs) = false

trim_space : List ℕ → List ℕ
unfolding trim_left
trim_space cs = reverse (trim_left (reverse (trim_left cs)))

-- `strings.TrimSpace(s) != ""`
unfoldable pub non_empty : String → Bool
unfolding trim_space is_null runes
non_empty s = not (is_null (trim_space (runes s)))

unfoldable pub in_range : ℤ → ℤ → ℤ → Bool
in_range v min max = leb_ℤ min v && leb_ℤ v max
