-- ===== src/Pages/Providers/Saved.antt =====
-- What web/src/pages/Providers.tsx sends when a connection is saved.
use infra_orch_studio.Common.{
  ◌≡◌, refl, subst, any, Bool, true, ◌&&◌, Option, none, some, List, [], ◌∷◌, Text, units, truthy,
  arith, All, Bool-cases, Option-cases, inl, inr, text_eq,
}
use infra_orch_studio.Js.Text.{trim}
use infra_orch_studio.Js.Object.{Object, text_key, put}
use infra_orch_studio.Options.{is_safe_provider_name}
use infra_orch_studio.Pages.Providers.{
  openstack_interfaces, Json, entries, no_object, Upsert, Page, put_own, is_known_interface,
  is_http_url, override_entries, override_of, parse_endpoint_override, upsert_of, send,
  save_provider,
}

-- A named endpoint with a web address.
abbrev pub IsEndpoint : (Text → Bool) → Text × Text → Type 0
IsEndpoint is_web (key, value) = (truthy key ≡ true) × (is_web value ≡ true)

put-All :
    (is_web : Text → Bool) (k v : Text) (o : Object Text Text)
    → IsEndpoint is_web (k, v)
    → All (IsEndpoint is_web) o
    → All (IsEndpoint is_web) (put k v o)
unfolding put
put-All is_web k v [] h a = (h, tt)
put-All is_web k v ((j, w) ∷ o) h a = elim (Bool-cases (text_eq j k)) [
  | inl same ↦ rw same (h, a.1)
  | inr other ↦ rw other (a.0, put-All is_web k v o h a.1)
]

put_own-All :
    (is_web : Text → Bool) (k v : Text) (o : Object Text Text)
    → IsEndpoint is_web (k, v)
    → All (IsEndpoint is_web) o
    → All (IsEndpoint is_web) (put_own k v o)
unfolding put_own
put_own-All is_web k v o h a = elim (Bool-cases (text_eq k (units "__proto__"))) [
  | inl proto ↦ rw proto a
  | inr own ↦ rw own (put-All is_web k v o h a)
]

module _ (is_web : Text → Bool) (parse : Text → Option Json) where
  override_entries-All :
      (list : List (Text × Option Text)) (out result : Object Text Text)
      → All (IsEndpoint is_web) out
      → override_entries is_web parse list out ≡ some result
      → All (IsEndpoint is_web) result
  unfolding override_entries is_http_url
  override_entries-All [] out result a h = subst (All (IsEndpoint is_web)) (ground arith) a
  override_entries-All ((key, none) ∷ rest) out result a h = absurd (ground arith)
  override_entries-All ((key, some value) ∷ rest) out result a h =
      elim (Bool-cases (truthy (trim key) && is_web (trim value))) [
        | inl good ↦
            override_entries-All rest (put_own (trim key) (trim value) out) result
              (put_own-All is_web (trim key) (trim value) out (ground arith) a) (rw good at h)
        | inr bad ↦ absurd (ground arith)
      ]

  override_of-All :
      (json : Option Json) (result : Object Text Text)
      → override_of is_web parse json ≡ some result
      → All (IsEndpoint is_web) result
  override_of-All none result h = absurd (ground arith)
  override_of-All (some no_object) result h = absurd (ground arith)
  override_of-All (some (entries list)) result h = override_entries-All list [] result tt h

  parse_override-All :
      (raw : Text) (result : Object Text Text)
      → parse_endpoint_override is_web parse raw ≡ some result
      → All (IsEndpoint is_web) result
  unfolding parse_endpoint_override
  parse_override-All raw result h = elim (Bool-cases (truthy (trim raw))) [
    | inl filled ↦ override_of-All (parse (trim raw)) result (rw filled at h)
    | inr blank ↦ subst (All (IsEndpoint is_web)) {x = []} (ground arith) tt
  ]

  -- What the form may send.
  abbrev pub IsSound : Upsert → Type 0
  IsSound u =
      (is_safe_provider_name u.name ≡ true)
      × (any (λ item. text_eq item u.interface) openstack_interfaces ≡ true)
      × (any (λ item. text_eq item u.identity_interface) openstack_interfaces ≡ true)
      × (is_web u.auth_url ≡ true)
      × All (IsEndpoint is_web) u.endpoint_override

  sent_by {ℓ} :
      {C : Type ℓ} (ko : Bool) (page : Page C) (u : Upsert)
      → let read = parse_endpoint_override is_web parse page.draft.endpoint_override_json in
        let next = send is_web parse ko read page in
        next.1 ≡ some u
        → (o : Object Text Text) × (read ≡ some o)
          × (u ≡ upsert_of page.draft o)
          × (next.0.saving ≡ true)
  sent_by ko page u h =
      elim (Option-cases (parse_endpoint_override is_web parse page.draft.endpoint_override_json)) [
        | inl unread ↦ absurd (ground arith)
        | inr (o, read) ↦ (o, read, ground arith, rw read refl)
      ]

  -- A request that saves a connection has a safe name, interfaces that OpenStack knows, a web address
  -- for authentication, and only named endpoints with web addresses; the page shows that it saves.
  pub save_provider-IsSound {ℓ} :
      {C : Type ℓ} (ko : Bool) (page : Page C) (u : Upsert)
      → (save_provider is_web parse ko page).1 ≡ some u
      → IsSound u × ((save_provider is_web parse ko page).0.saving ≡ true)
  unfolding save_provider is_known_interface is_http_url upsert_of
  save_provider-IsSound ko page u h =
      let d = page.draft in
      elim (Bool-cases (is_safe_provider_name (trim d.name))) [
        | inr unsafe ↦ absurd (ground arith)
        | inl safe ↦ elim (Bool-cases (is_known_interface d.interface)) [
          | inr unknown ↦ absurd (ground arith)
          | inl known ↦ elim (Bool-cases (is_known_interface d.identity_interface)) [
            | inr unknown ↦ absurd (ground arith)
            | inl identity ↦ elim (Bool-cases (is_web (trim d.auth_url))) [
              | inr other ↦ absurd (ground arith)
              | inl web ↦
                  let (o, read, same, saving) =
                    sent_by ko page u (rw (safe, known, identity, web) at h) in
                  (
                    rw same (safe, known, identity, web, parse_override-All _ o read),
                    rw (safe, known, identity, web) saving,
                  )
            ]
          ]
        ]
      ]
