-- ===== src/Delivery/Http/Cors.antt =====
-- internal/delivery/http/middleware/cors.go and requestid.go: the headers that a response gets before
-- its handler runs. The comparison of texts without regard to case is a parameter.
use vibechat.Prelude.{
  ℕ, String, str_eq, Bool, true, false, not, ◌&&◌, List, [], ◌∷◌, ◌++◌, any, if◌then◌else◌, ◌≡◌,
  ◌≢◌, refl, ◌∙◌, arith, Bool-cases, inl, inr,
}

-- `http.Header`; a key that is missing has no values.
abbrev pub Headers : Type 0
Headers = String → List String

unfoldable pub set : String → String → Headers → Headers
set key value h k = if str_eq k key then value ∷ [] else h k

unfoldable pub add : String → String → Headers → Headers
add key value h k = if str_eq k key then h k ++ (value ∷ []) else h k

unfoldable pub allow_all : List String → Bool
allow_all [] = true
allow_all (o ∷ []) = str_eq o "*"
allow_all (o ∷ p ∷ os) = false

module _ (equal_fold : String → String → Bool) (allowed_origins : List String) where
  unfoldable pub is_allowed : String → Bool
  unfolding allow_all
  is_allowed origin =
      if allow_all allowed_origins then true else any (λ o. equal_fold o origin) allowed_origins

  -- The headers for a request from `origin`, which is empty without the header.
  unfoldable pub allow_origin : String → Headers → Headers
  unfolding is_allowed set add
  allow_origin origin h =
      if not (str_eq origin "") && is_allowed origin
      then if allow_all allowed_origins
        then set "Access-Control-Allow-Origin" "*" h
        else add "Vary" "Origin" (
            set "Access-Control-Allow-Credentials" "true"
              (set "Access-Control-Allow-Origin" origin h))
      else h

  -- A status and the headers; a preflight request does not reach the handler.
  unfoldable pub cors : String → String → (Headers → ℕ × Headers) → Headers → ℕ × Headers
  unfolding allow_origin set
  cors method origin next h =
      let h' = allow_origin origin h in
      if str_eq method "OPTIONS"
      then (
        204,
        set "Access-Control-Max-Age" "3600" (
            set "Access-Control-Allow-Headers" "Content-Type, Authorization, X-Request-ID"
              (set "Access-Control-Allow-Methods" "GET, POST, PUT, PATCH, DELETE, OPTIONS" h')),
      )
      else next (set "Access-Control-Expose-Headers" "X-Request-ID" h')

-- The handler gets the id of the request from its context.
unfoldable pub request_id :
    String → String → (String → Headers → ℕ × Headers) → Headers → ℕ × Headers
unfolding set
request_id incoming fresh next h =
    let id = if str_eq incoming "" then fresh else incoming in next id (set "X-Request-ID" id h)

module _ (equal_fold : String → String → Bool) (allowed_origins : List String) where
  -- What the headers before the handler promise.
  allow_origin-credentials :
      (origin : String) (h : Headers)
      → h "Access-Control-Allow-Credentials" ≡ []
      → allow_origin equal_fold allowed_origins origin h "Access-Control-Allow-Credentials" ≢ []
      → (allow_origin equal_fold allowed_origins origin h "Access-Control-Allow-Origin"
          ≡ origin ∷ [])
        × (any (λ o. equal_fold o origin) allowed_origins ≡ true)
        × (allow_all allowed_origins ≡ false)
  unfolding allow_origin is_allowed set add
  allow_origin-credentials origin h e c =
      elim (Bool-cases (not (str_eq origin "") && is_allowed equal_fold allowed_origins origin)) [
        | inr f ↦ absurd (c (rw (f) e))
        | inl t ↦ elim (Bool-cases (allow_all allowed_origins)) [
          | inl a ↦ absurd (c (rw (t, a) e))
          | inr b ↦ (rw (t, b) refl, ground arith, b)
        ]
      ]

  -- Where no headers for credentials were set before, and the handler leaves the two headers as they
  -- are: a response that allows credentials, to a preflight request or to another one, names the origin
  -- of the request, which one of the allowed origins equals up to case, and the allowed origins are
  -- neither none nor "*" alone.
  pub cors-credentials :
      (method origin : String) (next : Headers → ℕ × Headers) (h : Headers)
      → h "Access-Control-Allow-Credentials" ≡ []
      → ((h' : Headers)
          → (next h').1 "Access-Control-Allow-Credentials" ≡ h' "Access-Control-Allow-Credentials")
      → ((h' : Headers)
          → (next h').1 "Access-Control-Allow-Origin" ≡ h' "Access-Control-Allow-Origin")
      → (cors equal_fold allowed_origins method origin next h).1 "Access-Control-Allow-Credentials"
        ≢ []
      → ((cors equal_fold allowed_origins method origin next h).1 "Access-Control-Allow-Origin"
          ≡ origin ∷ [])
        × (any (λ o. equal_fold o origin) allowed_origins ≡ true)
        × (allow_all allowed_origins ≡ false)
  unfolding cors set
  cors-credentials method origin next h e keeps keeps' c =
      elim (Bool-cases (str_eq method "OPTIONS")) [
        | inl m ↦
            let p = allow_origin-credentials origin h e (λ z. c (rw (m) z)) in
            (rw (m) p.0, p.1, p.2)
        | inr m ↦
            let p = allow_origin-credentials origin h e (λ z. c (rw (m) (keeps _ ∙ z))) in
            (rw (m) (keeps' _ ∙ p.0), p.1, p.2)
      ]
