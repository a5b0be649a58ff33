-- ===== src/Delivery/RateLimit/Window.antt =====
-- How many requests of one client pass within one window.
use mathlib.Core.Path.{subst}
use vibechat.Prelude.{
  ℕ, suc, ◌+◌, ◌-◌, ◌≤◌, ◌≡◌, refl, sym, ◌∙◌, String, true, false, not, List, [], ◌∷◌, Option, none,
  some, ltb, str_eq, All, arith, Bool-cases, inl, inr, eq_iff,
}
use vibechat.Domain.User.{Time}
use vibechat.Delivery.RateLimit.{
  Entry, Clients, store, keep_live, purge, admit, serve, Event, request, tick, time_of, served_to,
}

-- Every event stands within the window.
abbrev pub Within : Time → List Event → Type 0
Within end es = All (λ ev. time_of ev ≤ end) es

module _ (max_reqs window : ℕ) (ip : String) where
  not-over : (e : Entry) (now : Time) → now ≤ e.reset_at → ltb e.reset_at now ≡ false
  not-over e now h = ground arith

  purge-in_window :
      (clients : Clients) (e : Entry) (now : Time)
      → clients ip ≡ some e
      → now ≤ e.reset_at
      → purge now clients ip ≡ some e
  unfolding purge keep_live
  purge-in_window clients e now f h = rw (f, not-over e now h) refl

  store_other :
      (q : String) (x : Entry) (clients : Clients)
      → str_eq q ip ≡ false
      → store q x clients ip ≡ clients ip
  unfolding store
  store_other q x clients h = rw h refl

  store_self :
      (q : String) (x : Entry) (clients : Clients)
      → str_eq q ip ≡ true
      → store q x clients ip ≡ some x
  unfolding store
  store_self q x clients h = rw h refl

  admit-in_window :
      (q : String) (clients : Clients) (e : Entry) (now : Time)
      → clients ip ≡ some e
      → str_eq q ip ≡ true
      → now ≤ e.reset_at
      → admit max_reqs window q now (clients q)
        ≡ (not (ltb max_reqs (suc e.count)), record e { count = suc e.count })
  unfolding admit
  admit-in_window q clients e now f same w =
      let found : clients q ≡ some e =
        subst (λ k. clients k ≡ some e) (sym ((eq_iff q ip).0 same)) f in
      rw (found, not-over e now w) refl

  -- Within its window a client is served as often as there is left of the limit.
  served-in_window :
      (es : List Event) (clients : Clients) (e : Entry)
      → clients ip ≡ some e
      → Within e.reset_at es
      → served_to max_reqs window ip es clients ≤ max_reqs - e.count
  unfolding served_to serve
  served-in_window [] clients e f w = omega arith
  served-in_window (tick now ∷ es) clients e f w =
      served-in_window es (purge now clients) e (purge-in_window clients e now f w.0) w.1
  served-in_window (request q now ∷ es) clients e f w = elim (Bool-cases (str_eq q ip)) [
    | inl same ↦
        let next : Entry = record e { count = suc e.count } in
        let rest =
          served-in_window es (store q next clients) next (store_self q next clients same) w.1 in
        rw (same, admit-in_window q clients e now f same w.0) (ground arith)
    | inr other ↦ rw other (
        served-in_window es (store q (admit max_reqs window q now (clients q)).1 clients) e
          (store_other q _ clients other ∙ f) w.1)
  ]

admit-stale :
    (max_reqs window : ℕ) (ip : String) (now : Time) (o : Option Entry)
    → keep_live now o ≡ none
    → admit max_reqs window ip now o ≡ (true, record { count = 1; reset_at = now + window })
unfolding keep_live admit
admit-stale max_reqs window ip now none h = refl
admit-stale max_reqs window ip now (some e) h = elim (Bool-cases (ltb e.reset_at now)) [
  | inl f ↦ rw f refl
  | inr f ↦ absurd (ground arith)
]

-- A client without a live entry is served, and from then on until its window is over, it is served
-- as often as the limit says, this request included, whatever others do and whenever stale entries
-- are purged. (With a limit of zero the first request is served all the same.)
pub served_to-le :
    (max_reqs window : ℕ) (ip : String) (now : Time) (es : List Event) (clients : Clients)
    → keep_live now (clients ip) ≡ none
    → Within (now + window) es
    → served_to max_reqs window ip (request ip now ∷ es) clients ≤ suc (max_reqs - 1)
unfolding served_to serve
served_to-le max_reqs window ip now es clients stale w =
    let first : Entry = record { count = 1; reset_at = now + window } in
    let self = (eq_iff ip ip).1 refl in
    let rest =
      served-in_window max_reqs window ip es (store ip first clients) first
        (store_self max_reqs window ip ip first clients self) w in
    rw (self, admit-stale max_reqs window ip now (clients ip) stale) (ground arith)
