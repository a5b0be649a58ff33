-- ===== src/Storage/Cached/User/Coherent.antt =====
-- internal/infrastructure/storage/cached/user.go: what stands in the cache is what the origin has, and
-- each call keeps it so.
use text.Mathlib.TextLemmas.{append_cancel_left}
use mathlib.Core.Path.{subst}
use mathlib.Core.Option.{some-injective}
use vibechat.Prelude.{
  String, ℕ, ◌≡◌, ◌≢◌, refl, sym, ◌∙◌, ap, inl, inr, Option, some, Option-cases, ℤ,
}
use vibechat.Exec.{Result, ok, err, Exec, pure, resume, ◌>>=◌, ◌>>◌}
use vibechat.Exec.Stays.{Stays}
use vibechat.Domain.Errors.{Error}
use vibechat.Cache.{Cache, IsCache, Fewer}
use vibechat.Domain.User.{Uuid, Time, User, UserStatus, UserRepository}
use vibechat.Storage.Cached.{Codec, IsCodec, from_origin, in_cache, decoded}
use vibechat.Storage.Cached.User
use vibechat.Storage.Cached.User.{user_key, remember, fetch, use_hit, invalidate}

-- The tag `json:"-"` of `PasswordHash`.
unfoldable pub without_hash : User → User
without_hash u = record u { password_hash = "" }

-- What the cache relies on in the origin: `look` is the account that an id names, and each call
-- leaves alone the accounts that it does not name, and all of them when it fails.
pub record IsUserStore {S : Type 0} (repo : UserRepository S) (look : Uuid → S → Option User)
    : Type 0 where
  pub get_by_id-found :
      (id : Uuid) (s : S) {u : User} → (repo.get_by_id id s).0 ≡ ok u → look id s ≡ some u
  pub get_by_id-look : (id j : Uuid) (s : S) → look j (repo.get_by_id id s).1 ≡ look j s
  pub get_by_email-look :
      (e : String) (j : Uuid) (s : S) → look j (repo.get_by_email e s).1 ≡ look j s
  pub get_by_username-look :
      (n : String) (j : Uuid) (s : S) → look j (repo.get_by_username n s).1 ≡ look j s
  pub search-look :
      (q : String) (limit offset : ℕ) (j : Uuid) (s : S)
      → look j (repo.search q limit offset s).1 ≡ look j s
  pub create-keeps :
      (u : User) (j : Uuid) (s : S) {v : User}
      → look j s ≡ some v
      → look j (repo.create u s).1 ≡ some v
  pub update-other :
      (u : User) (j : Uuid) (s : S) → j ≢ u.id → look j (repo.update u s).1 ≡ look j s
  pub update-failed :
      (u : User) (j : Uuid) (s : S) {e : Error}
      → (repo.update u s).0 ≡ err e
      → look j (repo.update u s).1 ≡ look j s
  pub update_status-other :
      (id : Uuid) (st : UserStatus) (t : Time) (j : Uuid) (s : S)
      → j ≢ id
      → look j (repo.update_status id st t s).1 ≡ look j s
  pub update_status-failed :
      (id : Uuid) (st : UserStatus) (t : Time) (j : Uuid) (s : S) {e : Error}
      → (repo.update_status id st t s).0 ≡ err e
      → look j (repo.update_status id st t s).1 ≡ look j s
  pub delete-other : (id j : Uuid) (s : S) → j ≢ id → look j (repo.delete id s).1 ≡ look j s
  pub delete-failed :
      (id j : Uuid) (s : S) {e : Error}
      → (repo.delete id s).0 ≡ err e
      → look j (repo.delete id s).1 ≡ look j s

module _ {S K : Type 0} {show : Uuid → String} {codec : Codec User} {origin : UserRepository S}
    {cache : Cache K} {peek : String → K → Option String} {look : Uuid → S → Option User} (ttl : ℤ)
    (injective : (a b : Uuid) → show a ≡ show b → a ≡ b) (json : IsCodec codec without_hash)
    (store : IsUserStore origin look) (law : IsCache cache peek) where
  -- Each entry of the cache is the account of the origin, less its hash.
  unfoldable pub Coherent : S × K → Type 0
  Coherent st =
      (id : Uuid) (raw : String) (u : User)
      → peek (user_key show id) st.1 ≡ some raw
      → codec.unmarshal raw ≡ some u
      → (v : User) × (look id st.0 ≡ some v) × (without_hash v ≡ u)

  user_key_injective : (a b : Uuid) → user_key show a ≡ user_key show b → a ≡ b
  unfolding user_key
  user_key_injective a b h = injective a b (append_cancel_left "user:" _ _ h)

  -- Fewer entries, over an origin that has at least what it had.
  pub moved :
      (s s' : S) (k k' : K)
      → ((j : Uuid) (v : User) → look j s ≡ some v → look j s' ≡ some v)
      → Fewer peek k' k
      → Coherent (s, k)
      → Coherent (s', k')
  unfolding Coherent
  moved s s' k k' stay fewer h id raw u p d =
      let (v, l, e) = h id raw u (fewer _ _ p) d in (v, stay id v l, e)

  written :
      (r : Result (Unit {0})) (id : Uuid) (s s' : S) (k : K)
      → ((j : Uuid) → j ≢ id → look j s' ≡ look j s)
      → ((j : Uuid) (e : Error) → r ≡ err e → look j s' ≡ look j s)
      → Coherent (s, k)
      → Coherent (resume r (λ _. invalidate show codec origin cache ttl id) (s', k)).1
  unfolding Coherent invalidate in_cache ◌>>=◌
  written (ok a) id s s' k other failed h = λ j raw u p d.
      let (ne, p') = law.del-drops _ _ k p in
      let (v, l, e) = h j raw u p' d in (v, other j (λ same. ne (ap (user_key show) same)) ∙ l, e)
  written (err x) id s s' k other failed h =
      moved s s' k k (λ j v l. failed j x refl ∙ l) (λ key v p. p) h

  pub write-Coherent :
      (m : Exec S (Unit {0})) (id : Uuid)
      → ((j : Uuid) (s : S) → j ≢ id → look j (m s).1 ≡ look j s)
      → ((j : Uuid) (s : S) (e : Error) → (m s).0 ≡ err e → look j (m s).1 ≡ look j s)
      → Stays Coherent (from_origin m >> invalidate show codec origin cache ttl id)
  unfolding ◌>>=◌ from_origin
  write-Coherent m id other failed (s, k) h =
      written (m s).0 id s (m s).1 k (λ j ne. other j s ne) (λ j e. failed j s e) h

  pub call-Coherent :
      {A : Type 0} (m : Exec S A)
      → ((j : Uuid) (s : S) (v : User) → look j s ≡ some v → look j (m s).1 ≡ some v)
      → Stays Coherent (from_origin {K = K} m)
  unfolding from_origin
  call-Coherent m stay (s, k) h = moved s (m s).1 k k (λ j v l. stay j s v l) (λ key v p. p) h

  get-Fewer : (key : String) (k : K) → Fewer peek (cache.get key k).1 k
  get-Fewer key k j v p = law.get-keeps key j k p

  remember-Coherent :
      (id : Uuid) (u : User) (s : S) (k : K)
      → look id s ≡ some u
      → Coherent (s, k)
      → Coherent (remember show codec origin cache ttl id u (s, k)).1
  unfolding remember Coherent without_hash pure ◌>>=◌ in_cache
  remember-Coherent id u s k l h = elim (Option-cases (codec.marshal u)) [
    | inl e ↦ rw (remember, e) h
    | inr (b, e) ↦ rw (remember, e) (stored b e)
  ]
    where
      stored :
          (b : String)
          → codec.marshal u ≡ some b
          → (j : Uuid) (raw : String) (w : User)
          → peek (user_key show j) (cache.set (user_key show id) b ttl k).1 ≡ some raw
          → codec.unmarshal raw ≡ some w
          → (v : User) × (look j s ≡ some v) × (without_hash v ≡ w)
      stored b e j raw w p d = elim (law.set-writes _ b ttl _ k p) [
        | inl (same, val) ↦ (
          u,
          subst (λ i. look i s ≡ some u) (sym (user_key_injective j id same)) l,
          some-injective _ _ (sym (json.unmarshal-marshal u e) ∙ ap codec.unmarshal (sym val) ∙ d),
        )
        | inr (ne, p') ↦ h j raw w p' d
      ]

  remember-ok :
      (id : Uuid) (u : User) (st : S × K) → (remember show codec origin cache ttl id u st).0 ≡ ok tt
  unfolding remember ◌>>=◌ in_cache
  remember-ok id u st = elim (Option-cases (codec.marshal u)) [
    | inl e ↦ rw (remember, e) refl
    | inr (b, e) ↦ rw (remember, e) refl
  ]

  -- What a lookup answers, whatever was cached: an account of the origin up to its hash, or the
  -- origin's error.
  abbrev pub Answers : Uuid → S → Result User → Type 0
  Answers id s (ok u) = (v : User) × (look id s ≡ some v) × (without_hash v ≡ without_hash u)
  Answers id s (err e) = (origin.get_by_id id s).0 ≡ err e

  fetched :
      (r : Result User) (id : Uuid) (s s' : S) (k : K)
      → (origin.get_by_id id s).0 ≡ r
      → ((j : Uuid) → look j s' ≡ look j s)
      → Coherent (s, k)
      → let out = resume r (λ u. remember show codec origin cache ttl id u >> pure u) (s', k) in
        Coherent out.1 × Answers id s out.0
  unfolding ◌>>=◌
  fetched (ok u) id s s' k e same h =
      let l = same id ∙ store.get_by_id-found id s e in
      rw (remember-ok id u (s', k)) (
        remember-Coherent id u s' k l (moved s s' k k (λ j v l. same j ∙ l) (λ key v p. p) h),
        (u, store.get_by_id-found id s e, refl),
      )
  fetched (err x) id s s' k e same h = (moved s s' k k (λ j v l. same j ∙ l) (λ key v p. p) h, e)

  fetch-keeps :
      (id : Uuid) (s : S) (k : K)
      → Coherent (s, k)
      → let out = fetch show codec origin cache ttl id (s, k) in Coherent out.1 × Answers id s out.0
  unfolding fetch from_origin ◌>>=◌
  fetch-keeps id s k h =
      fetched (origin.get_by_id id s).0 id s (origin.get_by_id id s).1 k refl
        (λ j. store.get_by_id-look id j s) h

  hit :
      (r : Result String) (id : Uuid) (s : S) (k k' : K)
      → ((raw : String) → r ≡ ok raw → peek (user_key show id) k ≡ some raw)
      → Coherent (s, k)
      → Coherent (s, k')
      → let out = use_hit show codec origin cache ttl id (decoded codec.unmarshal r) (s, k') in
        Coherent out.1 × Answers id s out.0
  unfolding use_hit decoded pure Coherent without_hash
  hit (err e) id s k k' p h h' = fetch-keeps id s k' h'
  hit (ok raw) id s k k' p h h' = elim (Option-cases (codec.unmarshal raw)) [
    | inl e ↦ rw (use_hit, e) (fetch-keeps id s k' h')
    | inr (u, e) ↦
        let (v, l, same) = h id raw u (p raw refl) e in
        rw (use_hit, e) (h', (v, l, ap without_hash same))
  ]

  -- A lookup keeps the cache coherent, and answers with the account or with the error of the origin.
  pub get_by_id-Coherent :
      (id : Uuid) (s : S) (k : K)
      → Coherent (s, k)
      → let out = User.get_by_id show codec origin cache ttl id (s, k) in
        Coherent out.1 × Answers id s out.0
  unfolding User.get_by_id in_cache ◌>>=◌
  get_by_id-Coherent id s k h =
      let k' = (cache.get (user_key show id) k).1 in
      hit (cache.get (user_key show id) k).0 id s k k' (λ raw e. law.get-found _ k e) h
        (moved s s k k' (λ j v l. l) (get-Fewer _ k) h)
