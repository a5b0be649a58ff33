-- ===== src/Delivery/Http/Admission.antt =====
-- internal/delivery/http/middleware/auth.go: exactly the requests with a valid bearer token are let
-- through.
use Prim.Native.Char.{Char, code}
use Prim.Native.String.{◌++◌ as append}
use Prim.Native.String.append
use vibechat.Prelude.{
  ◌≡◌, refl, sym, ap, ◌∙◌, String, str_eq, eq_iff, Bool, true, false, not, ◌&&◌, Bool-cases, none,
  some, ◌==◌, ◌⊎◌, inl, inr, Option-cases, arith,
}
use vibechat.Domain.Errors.{Error}
use vibechat.Exec.{Result, ok, err, Exec, pure}
use vibechat.Domain.User.{Uuid}
use vibechat.Delivery.Http.{Response, unauthorized}
use vibechat.Delivery.Http.Auth.{auth, bearer, admitted, split_blank}

unfoldable pub no_blank : String → Bool
no_blank String.[] = true
no_blank (String.◌∷◌ c s) = not (code c == 32) && no_blank s

-- A scheme without a blank, a blank and a token.
pub record Written (header scheme token : String) : Type 0 where
  pub blank : Char
  pub is_blank : code blank ≡ 32
  pub first : no_blank scheme ≡ true
  pub written : header ≡ append scheme (String.◌∷◌ blank token)

append_nil : (t : String) → append "" t ≡ t
append_nil t = λ i. append.nil t i

append_cons : (c : Char) (s t : String) → append (String.◌∷◌ c s) t ≡ String.◌∷◌ c (append s t)
append_cons c s t = λ i. append.cons c s t i

no_blank-tail : (d : Char) (s : String) → no_blank (String.◌∷◌ d s) ≡ true → no_blank s ≡ true
unfolding no_blank
no_blank-tail d s f = ground arith

split_blank-append :
    (c : Char) (scheme token : String)
    → code c ≡ 32
    → no_blank scheme ≡ true
    → split_blank (append scheme (String.◌∷◌ c token)) ≡ some (scheme, token)
unfolding split_blank no_blank
split_blank-append c String.[] token h f = rw (append_nil) (ground arith)
split_blank-append c (String.◌∷◌ d s) token h f =
    rw (append_cons) (elim (Bool-cases (code d == 32)) [
      | inl e ↦ absurd (cc)
      | inr e ↦ let rest = split_blank-append c s token h (no_blank-tail d s f) in rw (e, rest) refl
    ])

Written-blank :
    (c : Char) (s a b : String) → code c ≡ 32 → "" ≡ a → s ≡ b → Written (String.◌∷◌ c s) a b
unfolding no_blank
Written-blank c s a b h ea eb =
    rw (← ea, ← eb)
      (record {
        blank = c;
        is_blank = h;
        first = refl;
        written = sym (append_nil (String.◌∷◌ c s));
      })

Written-letter :
    (c : Char) (s x a b : String)
    → (code c == 32) ≡ false
    → Written s x b
    → String.◌∷◌ c x ≡ a
    → Written (String.◌∷◌ c s) a b
unfolding no_blank
Written-letter c s x a b h w ea = rw (← ea) (record {
  blank = w.blank;
  is_blank = w.is_blank;
  first = rw (h, w.first) refl;
  written = ap (String.◌∷◌ c) w.written ∙ sym (append_cons c x (String.◌∷◌ w.blank b));
})

split_blank-Written : (header a b : String) → split_blank header ≡ some (a, b) → Written header a b
unfolding split_blank
split_blank-Written String.[] a b h = absurd (cc)
split_blank-Written (String.◌∷◌ c s) a b h = elim (Bool-cases (code c == 32)) [
  | inl e ↦ Written-blank c s a b (ground arith) (cc) (cc)
  | inr e ↦ elim (Option-cases (split_blank s)) [
    | inl n ↦ absurd (cc)
    | inr (p, q) ↦
        let eb : p.1 ≡ b = cc in
        Written-letter c s p.0 a b e (rw (← eb) (split_blank-Written s p.0 p.1 q)) (cc)
  ]
]

pub Written-split_blank :
    (header scheme token : String)
    → Written header scheme token
    → split_blank header ≡ some (scheme, token)
Written-split_blank header scheme token w =
    ap split_blank w.written ∙ split_blank-append w.blank scheme token w.is_blank w.first

Written-not_empty :
    (header scheme token : String)
    → split_blank header ≡ some (scheme, token)
    → str_eq header "" ≡ false
unfolding split_blank
Written-not_empty header scheme token h = elim (Bool-cases (str_eq header "")) [
  | inl e ↦
      let empty : split_blank header ≡ none = ap split_blank ((eq_iff header "").0 e) in absurd (cc)
  | inr e ↦ e
]

module _ (equal_fold : String → String → Bool) (validate_access_token : String → Result Uuid) where
  -- The header is the scheme "bearer", a blank and a token that is valid for the user.
  pub record Granted (header : String) (id : Uuid) : Type 0 where
    pub scheme : String
    pub token : String
    pub written : Written header scheme token
    pub is_bearer : equal_fold scheme "bearer" ≡ true
    pub valid : validate_access_token token ≡ ok id

validated : (r : Result Uuid) → ((id : Uuid) × (r ≡ ok id)) ⊎ ((e : Error) × (r ≡ err e))
validated (ok id) = inl (id, refl)
validated (err e) = inr (e, refl)

module _ {S : Type 0} {A : Type 0} (equal_fold : String → String → Bool)
    (validate_access_token : String → Result Uuid) (next : Uuid → Exec S (Response A)) where
  -- A request with the header "bearer", a blank and a valid token reaches the handler, with the
  -- user of the token.
  pub auth-Granted :
      (header : String) (id : Uuid)
      → Granted equal_fold validate_access_token header id
      → auth equal_fold validate_access_token header next ≡ next id
  unfolding auth
  auth-Granted header id g =
      let parts = Written-split_blank header g.scheme g.token g.written in
      rw (Written-not_empty header g.scheme g.token parts, parts, g.is_bearer, g.valid) refl

  -- The same for a header with a blank.
  bearer_refused :
      (header scheme token : String)
      → split_blank header ≡ some (scheme, token)
      → ((id : Uuid) → ¬ Granted equal_fold validate_access_token header id)
      → bearer equal_fold validate_access_token (some (scheme, token)) next ≡ pure unauthorized
  unfolding bearer admitted
  bearer_refused header scheme token parts h = elim (Bool-cases (equal_fold scheme "bearer")) [
    | inl e ↦ elim (validated (validate_access_token token)) [
      | inl (id, v) ↦ absurd (
          h id (record {
            scheme = scheme;
            token = token;
            written = split_blank-Written header scheme token parts;
            is_bearer = e;
            valid = v;
          }))
      | inr (x, v) ↦ rw (e, v) refl
    ]
    | inr e ↦ rw (e) refl
  ]

  -- A request whose header is not of this form, or whose token is not valid, is answered with
  -- "unauthorized", and the state stays as it was.
  pub auth_refused :
      (header : String)
      → ((id : Uuid) → ¬ Granted equal_fold validate_access_token header id)
      → auth equal_fold validate_access_token header next ≡ pure unauthorized
  unfolding auth
  auth_refused header h = elim (Bool-cases (str_eq header "")) [
    | inl e ↦ rw (e) refl
    | inr e ↦ elim (Option-cases (split_blank header)) [
      | inl n ↦ rw (e, n) refl
      | inr (p, q) ↦ rw (e, q) (bearer_refused header p.0 p.1 q h)
    ]
  ]
